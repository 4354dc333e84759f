-- ===== src/Session/Surface/Tests.antt =====
-- Dispatches to a runtime at rest, with a callee that dispatches while one runs.
use mathlib.Core.Option
use riki.Prelude.{
  ℕ, ◌+◌, ◌++◌, ◌∙◌, ap, Option, map, append-nil, Bool-cases, inl, inr, if◌then◌else◌, ◌≤◌, ◌<◌,
  ◌≡◌, refl, true, false, List, [], ◌∷◌, some, none, arith, all, same,
}
use riki.Session.Types.{
  SpeechEvent, silence, Phase, idle, armed, listening, processing, speaking, MachineState,
  MachineInput, TriggerEvent, Effect, default_environment,
}
use riki.Session.Draft.{Draft, draft_of, commit, enter, cancel_unkept, schedule, begin_capture}
use riki.Session.Machine.{apply, apply_speech, apply_trigger, trigger_in, speech_in, reduce}
use riki.Session.Runtime.{
  Call, Runtime, step, reactions, round, drain_from, dispatch, PhaseKind, PhaseKind-discrete,
  kind_of, perform, perform_all,
}
use riki.Session.Surface.Handled.{steps, dispatched, reactions-append}
use riki.Session.Surface.{Surface, absorb_all, fire}
use riki.Session.Surface.Refinement.{Shows, step-Shows}
use riki.Session.Surface.Runs.{is_untimed, weight, absorb_log, all-append, dispatch-Shows}
use riki.Session.Invariant.{ids}

abbrev at_rest : MachineState
at_rest = record {
  phase = idle;
  since = 0;
  muted = false;
  latched = false;
  pending = [];
  reported = [];
  env = default_environment;
  revision = 0;
}

abbrev dark : Surface
dark = record { timers = []; ducked = false; meter = none; visible = false; chip_revision = 0 }

dark-Shows : Shows dark at_rest
dark-Shows = ground arith

abbrev waiting : Runtime
waiting = record {
  state = at_rest;
  disposed = false;
  draining = false;
  queue = [];
  subscribers = 7 ∷ [];
}

step-Shows_example :
    Shows
      (absorb_all 100
        (fire (MachineInput.trigger TriggerEvent.down) dark)
        (step waiting (MachineInput.trigger TriggerEvent.down) 100).1)
      (step waiting (MachineInput.trigger TriggerEvent.down) 100).0.state
step-Shows_example = step-Shows waiting (MachineInput.trigger TriggerEvent.down) 100 dark dark-Shows

-- A callee that dispatches an input while the dispatch of another runs: when the machine is armed, it
-- says that there is silence.
abbrev answers_arming : Call → List MachineInput
answers_arming (Call.transition PhaseKind.idle PhaseKind.armed now) =
    MachineInput.speech silence ∷ []
answers_arming c = []

abbrev rank : MachineInput → ℕ
rank (MachineInput.speech event) = 1
rank i = 2

abbrev turn_calls : PhaseKind → PhaseKind → ℕ → List Call
turn_calls before after now =
    if same PhaseKind-discrete before after then [] else Call.transition before after now ∷ []

perform-quiet :
    (state : MachineState) (now : ℕ) (e : Effect)
    → reactions answers_arming (perform state now e) ≡ []
unfolding reactions perform
perform-quiet state now (Effect.window visible hold_ms) = refl
perform-quiet state now Effect.project = refl
perform-quiet state now (Effect.schedule id delay_ms) = refl
perform-quiet state now (Effect.cancel id) = refl
perform-quiet state now (Effect.levels running source) = refl
perform-quiet state now (Effect.earcon sound) = refl
perform-quiet state now (Effect.duck on) = refl
perform-quiet state now (Effect.voice command) = refl

perform_all-quiet :
    (state : MachineState) (now : ℕ) (es : List Effect)
    → reactions answers_arming (perform_all state now es) ≡ []
unfolding reactions perform_all
perform_all-quiet state now [] = refl
perform_all-quiet state now (e ∷ es) =
    reactions-append answers_arming (perform state now e) (perform_all state now es)
    ∙ ap (λ is. is ++ reactions answers_arming (perform_all state now es))
        (perform-quiet state now e)
    ∙ perform_all-quiet state now es

notify-quiet :
    (state : MachineState) (ids : List ℕ)
    → reactions answers_arming (map (λ id. Call.notify id state) ids) ≡ []
unfolding reactions
notify-quiet state [] = refl
notify-quiet state (id ∷ ids) = notify-quiet state ids

-- Only a change of the phase is answered.
step-reactions :
    (r : Runtime) (i : MachineInput) (now : ℕ)
    → reactions answers_arming (step r i now).1
      ≡ reactions answers_arming
          (turn_calls (kind_of r.state.phase) (kind_of (reduce r.state i now).state.phase) now)
unfolding step
step-reactions r i now =
    let next = reduce r.state i now in
    let turn = turn_calls (kind_of r.state.phase) (kind_of next.state.phase) now in
    let told = map (λ id. Call.notify id next.state) r.subscribers in
    let performed = perform_all next.state now next.effects in
    reactions-append answers_arming (performed ++ turn) told
    ∙ ap (λ is. reactions answers_arming (performed ++ turn) ++ is)
        (notify-quiet next.state r.subscribers)
    ∙ append-nil (reactions answers_arming (performed ++ turn))
    ∙ reactions-append answers_arming performed turn
    ∙ ap (λ is. is ++ reactions answers_arming turn) (perform_all-quiet next.state now next.effects)

answer_rank : (c : Call) → weight rank (reactions answers_arming (c ∷ [])) ≤ 1
unfolding reactions
answer_rank (Call.transition PhaseKind.idle PhaseKind.armed now) = omega arith
answer_rank c = omega arith

turn-rank :
    (before after : PhaseKind) (now : ℕ)
    → weight rank (reactions answers_arming (turn_calls before after now)) < 2
unfolding reactions
turn-rank before after now = elim (Bool-cases (same PhaseKind-discrete before after)) [
  | inl t ↦ rw t (omega arith)
  | inr t ↦ rw t (omega (arith, answer_rank (Call.transition before after now)))
]

-- An input of speech never arms the machine.
speech-quiet :
    (p : Phase) (d : Draft) (event : SpeechEvent) (now : ℕ)
    → d.phase ≡ p
    → reactions answers_arming
        (turn_calls (kind_of p) (kind_of (speech_in p d event now).phase) now)
      ≡ []
unfolding reactions speech_in schedule
speech-quiet idle d event now e = ground arith
speech-quiet (armed gesture) d event now e = ground arith
speech-quiet (listening gesture none) d silence now e = ground arith
speech-quiet (listening gesture none) d SpeechEvent.resumed now e = ground arith
speech-quiet (listening gesture (some t)) d silence now e = ground arith
speech-quiet (listening gesture (some t)) d SpeechEvent.resumed now e = ground arith
speech-quiet (processing started_at) d event now e = ground arith
speech-quiet speaking d event now e = ground arith
speech-quiet (Phase.error fault) d event now e = ground arith

answers_fall :
    (r : Runtime) (i : MachineInput) (now : ℕ)
    → weight rank (reactions answers_arming (step r i now).1) < rank i
unfolding reduce apply apply_speech commit
answers_fall r (MachineInput.speech event) now =
    rw
      (
        step-reactions r (MachineInput.speech event) now,
        speech-quiet r.state.phase (draft_of r.state) event now refl,
      )
      (omega arith)
answers_fall r i now =
    rw (step-reactions r i now)
      (turn-rank (kind_of r.state.phase) (kind_of (reduce r.state i now).state.phase) now)

answer_untimed : (c : Call) → all is_untimed (answers_arming c) ≡ true
answer_untimed (Call.transition PhaseKind.idle PhaseKind.armed now) = refl
answer_untimed c = refl

answers_untimed : (cs : List Call) → all is_untimed (reactions answers_arming cs) ≡ true
unfolding reactions
answers_untimed [] = refl
answers_untimed (c ∷ cs) =
    all-append (answers_arming c) (reactions answers_arming cs) (answer_untimed c)
      (answers_untimed cs)

abbrev tapped : Option (Runtime × List (ℕ × Call))
tapped = dispatch answers_arming (λ k. 100 + k) 3 waiting (MachineInput.trigger TriggerEvent.tap) 0

-- The input that the callee dispatches meanwhile is handled too.
tapped-dispatched :
    Option.map (λ (r, log). dispatched answers_arming log) tapped
    ≡ some (MachineInput.speech silence ∷ [])
unfolding dispatch drain_from round step reactions reduce apply apply_trigger trigger_in commit
    perform_all begin_capture schedule enter cancel_unkept perform PhaseKind-discrete
tapped-dispatched = refl

dispatch-Shows_example :
    (r' : Runtime) × (log : List (ℕ × Call)) × (tapped ≡ some (r', log))
    × (steps
          (λ k. 100 + k)
          (7 ∷ [])
          at_rest
          0
          (MachineInput.trigger TriggerEvent.tap ∷ dispatched answers_arming log)
        ≡ (r'.state, log))
    × Shows (absorb_log (fire (MachineInput.trigger TriggerEvent.tap) dark) log) r'.state
    × (r'.draining ≡ false)
    × (r'.queue ≡ [])
dispatch-Shows_example =
    dispatch-Shows answers_arming (λ k. 100 + k) answers_untimed rank answers_fall 3 0 waiting
      (MachineInput.trigger TriggerEvent.tap) dark refl refl refl (omega arith) dark-Shows
