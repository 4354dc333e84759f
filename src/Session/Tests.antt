-- ===== src/Session/Tests.antt =====
-- Runs of the machine, and the properties of it at concrete inputs.
use riki.Prelude.{
  ◌+◌, ◌≤◌, ◌<◌, ◌≡◌, ◌↔◌, refl, Bool, true, false, [], ◌∷◌, some, none, arith, any, same,
}
use riki.Session.Types.{
  push, latch, Fault, mic_denied, FaultKind-discrete, TimerId-discrete, listen_timeout,
  error_dismiss, Phase, idle, armed, listening, processing, speaking, MachineState, MachineInput,
  TriggerEvent, first_audio, Effect, interrupt, input, capture_start, default_environment,
}
use riki.Session.Draft.{enter, cancel_unkept, schedule, begin_capture}
use riki.Session.Machine.{reduce, no_speech}
use riki.Session.Projection.{
  ChipState, ChipPhase, TrayGlyph, Affordance, project_chip, project_tray, chip_text,
  affordances_of,
}
use riki.Session.Projection.Laws.{
  glyph_tells, hidden_iff_invisible, tray_attention, processing_hints,
}
use riki.Session.Invariant.{ids, IsValid}
use riki.Session.Invariant.Step.{reduce-IsValid}
use riki.Session.Behaviour.{muted_ignores, cancel_rests, barge_in_effects}
use riki.Session.Behaviour.Faults.{fault_announced_once, is_alarm, is_abort}
use riki.Session.Behaviour.Timeouts.{capture_ends}

-- A key held at 100, audio at 150.
abbrev armed_push : MachineState
armed_push = record {
  phase = armed push;
  since = 100;
  muted = false;
  latched = false;
  pending = (record { id = listen_timeout; due_at = 8_100 }) ∷ [];
  reported = [];
  env = default_environment;
  revision = 1;
}

abbrev at_rest : MachineState
at_rest = record {
  phase = idle;
  since = 0;
  muted = false;
  latched = false;
  pending = [];
  reported = [];
  env = default_environment;
  revision = 0;
}

abbrev answering : MachineState
answering = record {
  phase = speaking;
  since = 500;
  muted = false;
  latched = true;
  pending = [];
  reported = [];
  env = default_environment;
  revision = 4;
}

abbrev silenced : MachineState
silenced = record at_rest { muted = true }

abbrev denied : Fault
denied = record { kind = mic_denied; persistent = true; message = "Riki can't hear you" }

abbrev thinking : MachineState
thinking = record at_rest { phase = processing 1_000 }

armed_push_lem : (reduce at_rest (MachineInput.trigger TriggerEvent.down) 100).state ≡ armed_push
unfolding reduce begin_capture enter cancel_unkept schedule TimerId-discrete
armed_push_lem = refl

kept_timer :
    ids (reduce armed_push (MachineInput.capture first_audio) 150).state.pending
    ≡ listen_timeout ∷ []
unfolding reduce enter cancel_unkept TimerId-discrete
kept_timer = refl

at_rest-IsValid : IsValid at_rest
at_rest-IsValid = ground arith

armed_push-IsValid : IsValid armed_push
armed_push-IsValid = ground arith

reduce-IsValid_example : IsValid (reduce armed_push (MachineInput.capture first_audio) 150).state
reduce-IsValid_example =
    reduce-IsValid armed_push (MachineInput.capture first_audio) 150 armed_push-IsValid

capture_ends_example :
    let t = reduce armed_push (MachineInput.timer listen_timeout) 8_100 in
    (any (λ id. same TimerId-discrete id listen_timeout) (ids armed_push.pending) ≡ true)
    × (t.state.phase ≡ Phase.error no_speech)
    × (t.state.pending ≡ (record { id = error_dismiss; due_at = 8_100 + 4_000 }) ∷ [])
    × ((reduce t.state (MachineInput.timer error_dismiss) 12_100).state.phase ≡ idle)
capture_ends_example = capture_ends armed_push 8_100 12_100 armed_push-IsValid refl

fault_announced_once_example :
    let t = reduce armed_push (MachineInput.fault denied) 300 in
    (any is_alarm t.effects ≡ true)
    × (any is_abort t.effects ≡ true)
    × (t.state.phase ≡ Phase.error denied)
unfolding FaultKind-discrete
fault_announced_once_example = fault_announced_once armed_push denied 300

barge_in_effects_example :
    let t = reduce answering (MachineInput.trigger TriggerEvent.tap) 900 in
    (t.state.phase ≡ listening latch none)
    × (t.effects
        ≡ Effect.window true none
          ∷ Effect.voice (interrupt 900)
          ∷ Effect.duck false
          ∷ Effect.levels true input
          ∷ Effect.earcon capture_start
          ∷ Effect.schedule listen_timeout 8_000
          ∷ Effect.project
          ∷ [])
barge_in_effects_example = barge_in_effects answering TriggerEvent.tap 900 refl refl refl refl

cancel_rests_example :
    let t = reduce armed_push (MachineInput.trigger TriggerEvent.cancel) 300 in
    (t.state.phase ≡ idle)
    × (ids t.state.pending ≡ [])
    × (t.state.latched ≡ false)
    × (t.state.muted ≡ false)
    × (t.state.reported ≡ [])
cancel_rests_example = cancel_rests armed_push 300 armed_push-IsValid

muted_ignores_example :
    reduce silenced (MachineInput.trigger TriggerEvent.down) 300
    ≡ record { state = silenced; effects = [] }
muted_ignores_example = muted_ignores silenced TriggerEvent.down 300 refl (λ e. cc)

glyph_tells_example :
    ((project_chip armed_push 120).state ≡ (project_chip armed_push 900).state)
    × ((project_chip armed_push 120).motion ≡ (project_chip armed_push 900).motion)
    × ((project_chip armed_push 120).accent ≡ (project_chip armed_push 900).accent)
    × ((project_chip armed_push 120).bars ≡ (project_chip armed_push 900).bars)
unfolding project_chip
glyph_tells_example = glyph_tells armed_push armed_push 120 900 refl refl refl

hidden_iff_invisible_example :
    (((project_chip silenced 5).state ≡ ChipState.hidden) ↔ ◌≡◌ {A = Bool} true false)
    × (((project_chip silenced 5).phase ≡ ChipPhase.leaving) ↔ ◌≡◌ {A = Bool} true false)
hidden_iff_invisible_example = hidden_iff_invisible silenced 5

abbrev revoked : MachineState
revoked = record silenced { reported = mic_denied ∷ [] }

tray_attention_example :
    ((project_tray revoked ≡ TrayGlyph.attention) ↔ ◌≡◌ {A = Bool} false false)
    × ((project_tray revoked ≡ TrayGlyph.muted)
        ↔ (◌≡◌ {A = Bool} false true × ◌≡◌ {A = Bool} true true))
    × ((project_tray revoked ≡ TrayGlyph.idle)
        ↔ (◌≡◌ {A = Bool} false true × ◌≡◌ {A = Bool} true false × ◌≡◌ {A = Phase} idle idle))
tray_attention_example = tray_attention revoked

processing_hints_example :
    ((chip_text thinking 3_000 ≡ none) ↔ (3_000 < 1_000 + 2_500))
    × (chip_text thinking (1_000 + 2_500 + 500)
        ≡ some (record { primary = ""; hint = none; elapsed_ms = some (2_500 + 500) }))
    × ((affordances_of thinking 3_000 ≡ Affordance.cancel ∷ []) ↔ (1_000 + 10_000 ≤ 3_000))
processing_hints_example = processing_hints thinking 1_000 3_000 500 refl
