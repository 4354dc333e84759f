-- ===== src/Session/Draft.antt =====
-- session/machine.ts, lines 45 to 252: the draft of a transition, the effect emitters, and the
-- composite transitions. A statement that mutates the draft is a function that returns it.
use riki.Prelude.{
  ℕ, ◌+◌, Bool, true, false, not, ◌&&◌, List, [], ◌∷◌, ◌++◌, none, some, filter, any, same,
  if◌then◌else◌,
}
use riki.Session.Types.{
  CaptureMode, latch, FaultKind, FaultKind-discrete, Fault, TimerId, TimerId-discrete, PendingTimer,
  listen_timeout, elapsed_hint, cancel_hint, error_dismiss, Phase, idle, armed, listening,
  processing, speaking, MachineEnvironment, MachineState, EarconId, capture_start, capture_end,
  VoiceCommand, interrupt, abort, LevelSource, input, Effect, Transition, elapsed_hint_ms,
  cancel_hint_ms, error_dismiss_ms, hide_hold_ms,
}

pub record Draft : Type 0 where
  pub phase : Phase
  pub since : ℕ
  pub muted : Bool
  pub latched : Bool
  pub pending : List PendingTimer
  pub reported : List FaultKind
  pub env : MachineEnvironment
  pub revision : ℕ
  pub effects : List Effect

unfoldable pub initial : MachineEnvironment → ℕ → MachineState
initial env now = record {
  phase = idle;
  since = now;
  muted = false;
  latched = false;
  pending = [];
  reported = [];
  env = env;
  revision = 0;
}

abbrev pub draft_of : MachineState → Draft
draft_of state = record {
  phase = state.phase;
  since = state.since;
  muted = state.muted;
  latched = state.latched;
  pending = state.pending;
  reported = state.reported;
  env = state.env;
  revision = state.revision;
  effects = [];
}

abbrev pub is_show : Effect → Bool
is_show (Effect.window visible hold_ms) = visible
is_show _ = false

-- The effects that make the window visible go first, and the others keep their order.
unfoldable pub commit : Draft → Transition
commit d = record {
  state = record {
    phase = d.phase;
    since = d.since;
    muted = d.muted;
    latched = d.latched;
    pending = d.pending;
    reported = d.reported;
    env = d.env;
    revision = d.revision;
  };
  effects = filter is_show d.effects ++ filter (λ e. not (is_show e)) d.effects;
}

-- `d.effects.push(effect)`
abbrev pub emit : Draft → Effect → Draft
emit d effect = record d { effects = d.effects ++ effect ∷ [] }

abbrev pub show : Draft → Draft
show d = emit d (Effect.window true none)

abbrev pub hide : Draft → Draft
hide d = emit d (Effect.window false (some hide_hold_ms))

abbrev pub project : Draft → Draft
project d = emit (record d { revision = d.revision + 1 }) Effect.project

abbrev pub levels : Draft → Bool → LevelSource → Draft
levels d running source = emit d (Effect.levels running source)

abbrev pub earcon : Draft → EarconId → Draft
earcon d sound = emit d (Effect.earcon sound)

abbrev pub duck : Draft → Bool → Draft
duck d on = emit d (Effect.duck on)

abbrev pub voice : Draft → VoiceCommand → Draft
voice d command = emit d (Effect.voice command)

abbrev pub has_id : TimerId → PendingTimer → Bool
has_id id t = same TimerId-discrete t.id id

abbrev pub without : TimerId → List PendingTimer → List PendingTimer
without id = filter (λ t. not (has_id id t))

unfoldable pub schedule : Draft → TimerId → ℕ → ℕ → Draft
schedule d id delay_ms now =
    emit
      (record d {
        pending = without id d.pending ++ (record { id = id; due_at = now + delay_ms }) ∷ [];
      })
      (Effect.schedule id delay_ms)

unfoldable pub cancel : Draft → TimerId → Draft
cancel d id =
    if not (any (has_id id) d.pending)
    then d
    else emit (record d { pending = without id d.pending }) (Effect.cancel id)

unfoldable pub forget : Draft → TimerId → Draft
forget d id = record d { pending = without id d.pending }

-- `keep.includes(id)`
abbrev pub includes : List TimerId → TimerId → Bool
includes keep id = any (λ k. same TimerId-discrete k id) keep

-- The loop of `enter` over a copy of the pending timers.
unfoldable pub cancel_unkept : Draft → List TimerId → List PendingTimer → Draft
cancel_unkept d keep [] = d
cancel_unkept d keep (t ∷ timers) =
    cancel_unkept (if includes keep t.id then d else cancel d t.id) keep timers

abbrev pub is_speaking : Phase → Bool
is_speaking speaking = true
is_speaking _ = false

unfoldable pub enter : Draft → Phase → ℕ → List TimerId → Draft
enter d next now keep =
    let previous = d.phase in
    let d1 = cancel_unkept d keep d.pending in
    let d2 = if is_speaking previous && not (is_speaking next) then duck d1 false else d1 in
    let d3 = record d2 { phase = next; since = now } in
    if is_speaking next && not (is_speaking previous) then duck d3 true else d3

abbrev pub is_latch : CaptureMode → Bool
is_latch latch = true
is_latch _ = false

unfoldable pub begin_capture : Draft → CaptureMode → ℕ → Draft
begin_capture d gesture now =
    let d1 = enter d (armed gesture) now [] in
    let d2 = show (record d1 { latched = is_latch gesture }) in
    let d3 = earcon (levels d2 true input) capture_start in
    project (schedule d3 listen_timeout d3.env.listen_timeout_ms now)

-- `with_earcon` is the field of `options`.
unfoldable pub to_processing : Draft → ℕ → Bool → Draft
to_processing d now with_earcon =
    let d1 = levels (enter d (processing now) now []) false input in
    let d2 = if with_earcon then earcon d1 capture_end else d1 in
    let d3 = schedule d2 elapsed_hint elapsed_hint_ms now in
    project (schedule d3 cancel_hint cancel_hint_ms now)

unfoldable pub to_idle : Draft → ℕ → Draft
to_idle d now =
    let d1 = record (enter d idle now []) { latched = false } in
    let d2 = levels d1 false input in project (if d2.muted then show d2 else hide d2)

unfoldable pub to_listening : Draft → CaptureMode → ℕ → Draft
to_listening d gesture now =
    let d1 = enter d (listening gesture none) now [] in
    let d2 = show (record d1 { latched = is_latch gesture }) in
    let d3 = earcon (levels d2 true input) capture_start in
    project (schedule d3 listen_timeout d3.env.listen_timeout_ms now)

unfoldable pub barge_in : Draft → CaptureMode → ℕ → Draft
barge_in d gesture now = to_listening (voice d (interrupt now)) gesture now

-- `d.reported.includes(kind)`
abbrev pub was_reported : List FaultKind → FaultKind → Bool
was_reported reported kind = any (λ k. same FaultKind-discrete k kind) reported

-- Error is not active: there is no capture to stop and no turn to abort.
abbrev pub is_active : Phase → Bool
is_active idle = false
is_active (Phase.error fault) = false
is_active _ = true

-- What `raiseFault` does for a fault that is not already reported.
unfoldable pub announce_fault : Draft → Fault → Bool → ℕ → Draft
announce_fault d fault was_active now =
    let d1 =
      if fault.persistent then record d { reported = d.reported ++ fault.kind ∷ [] } else d in
    let d2 = if was_active then voice d1 abort else d1 in
    let d3 = record (enter d2 (Phase.error fault) now []) { latched = false } in
    let d4 = show (earcon (levels d3 false input) EarconId.error) in
    project (if fault.persistent then d4 else schedule d4 error_dismiss error_dismiss_ms now)

unfoldable pub raise_fault : Draft → Fault → ℕ → Draft
raise_fault d fault now =
    let already_reported = fault.persistent && was_reported d.reported fault.kind in
    let was_active = is_active d.phase in
    if already_reported
    then if was_active then to_idle d now else d
    else announce_fault d fault was_active now

unfoldable pub cancel_interaction : Draft → ℕ → Draft
cancel_interaction d now = elim d.phase [ idle ↦ d | _ ↦ to_idle (voice d abort) now ]
