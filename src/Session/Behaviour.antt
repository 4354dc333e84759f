-- ===== src/Session/Behaviour.antt =====
-- session/machine.ts seen from the player: muting, cancelling and barge-in.
pub mod Timeouts
pub mod Faults
use riki.Prelude.{
  ℕ, ◌+◌, ◌≡◌, ◌≢◌, ◌⊎◌, refl, ap, sym, ◌∙◌, Bool, true, false, not, ◌&&◌, ◌||◌, List, [], ◌∷◌,
  ◌++◌, Option, some, none, arith, filter, any, any-append, same, if◌then◌else◌, Bool-cases, inl,
  inr,
}
use riki.Session.Types.{
  FaultKind, TimerId, PendingTimer, Phase, idle, armed, listening, processing, speaking,
  CaptureMode, Fault, MachineState, MachineInput, TriggerEvent, down, tap, silence_nudge,
  listen_timeout, error_dismiss, error_dismiss_ms, Effect, Transition, VoiceCommand, abort,
  interrupt, input, capture_start, EarconId, latch,
}
use riki.Session.Draft.{
  Draft, draft_of, commit, is_show, is_active, is_latch, was_reported, schedule, cancel, forget,
  enter, to_idle, to_listening, barge_in, begin_capture, announce_fault, raise_fault,
  cancel_interaction, cancel_unkept, voice, emit,
}
use riki.Session.Machine.{
  apply, reduce, apply_trigger, trigger_in, apply_timer, timer_in, starts_gesture, gesture_of,
  no_speech,
}
use riki.Session.Invariant.{ids, IsValid}
use riki.Session.Invariant.Fields.{enter-Entered, pending-enter}

-- Muted, every capture gesture is ignored: the state is as it was, and there are no effects.
pub muted_ignores :
    (s : MachineState) (event : TriggerEvent) (now : ℕ)
    → s.muted ≡ true
    → event ≢ TriggerEvent.cancel
    → reduce s (MachineInput.trigger event) now ≡ record { state = s; effects = [] }
unfolding reduce
muted_ignores s TriggerEvent.cancel now m h = absurd (h refl)
muted_ignores s _ now m h = ground arith

to_idle-rests :
    (d : Draft) (now : ℕ)
    → ((to_idle d now).phase ≡ idle)
      × ((to_idle d now).pending ≡ [])
      × ((to_idle d now).latched ≡ false)
      × ((to_idle d now).muted ≡ d.muted)
      × ((to_idle d now).reported ≡ d.reported)
unfolding to_idle
to_idle-rests d now = ground (arith, enter-Entered d idle now [], pending-enter d idle now)

-- Cancelling, from the keyboard or from the renderer, ends in Idle with no timer pending in every
-- state that satisfies the invariant, muted or not, and keeps the reported faults.
pub cancel_rests :
    (s : MachineState) (now : ℕ)
    → IsValid s
    → let t = reduce s (MachineInput.trigger TriggerEvent.cancel) now in
      (t.state.phase ≡ idle)
      × (ids t.state.pending ≡ [])
      × (t.state.latched ≡ false)
      × (t.state.muted ≡ s.muted)
      × (t.state.reported ≡ s.reported)
unfolding reduce cancel_interaction
cancel_rests s now v = ground (arith, to_idle-rests (voice (draft_of s) abort) now)

-- A key press while Riki speaks is one transition to Listening. Its effects are these, the show
-- first: the answer is interrupted at the time of the press, the ducking ends, the meter turns to
-- the microphone, and the listening timeout starts.
pub barge_in_effects :
    (s : MachineState) (event : TriggerEvent) (now : ℕ)
    → s.phase ≡ speaking
    → s.muted ≡ false
    → s.pending ≡ []
    → starts_gesture event ≡ true
    → let t = reduce s (MachineInput.trigger event) now in
      (t.state.phase ≡ listening (gesture_of event) none)
      × (t.effects
          ≡ Effect.window true none
            ∷ Effect.voice (interrupt now)
            ∷ Effect.duck false
            ∷ Effect.levels true input
            ∷ Effect.earcon capture_start
            ∷ Effect.schedule listen_timeout s.env.listen_timeout_ms
            ∷ Effect.project
            ∷ [])
unfolding reduce barge_in to_listening enter cancel_unkept schedule
barge_in_effects s TriggerEvent.down now p m q g = ground arith
barge_in_effects s TriggerEvent.tap now p m q g = ground arith
barge_in_effects s TriggerEvent.up now p m q g = cc
barge_in_effects s TriggerEvent.cancel now p m q g = cc
