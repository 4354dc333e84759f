-- ===== src/Session/Invariant/Step.antt =====
-- `reduce` of session/machine.ts under the invariant, and histories of inputs.
use riki.Prelude.{
  ℕ, ◌≡◌, refl, ap, ◌∙◌, Bool, true, false, not, List, [], ◌∷◌, ◌++◌, some, none, arith, filter,
  same, if◌then◌else◌, Bool-cases, inl, inr,
}
use riki.Session.Types.{
  TimerId, TimerId-discrete, PendingTimer, Phase, idle, armed, listening, processing, speaking,
  MachineState, MachineInput, MachineEnvironment, TriggerEvent, RendererIntent, CaptureEvent,
  opened, first_audio, closed, SpeechEvent, silence, resumed, TurnEvent, submitted,
  response_started, response_ended, silence_nudge, listen_timeout, error_dismiss, abort, interrupt,
  capture_end, latch,
}
use riki.Session.Draft.{
  Draft, draft_of, is_active, without, schedule, cancel, forget, barge_in, raise_fault,
  cancel_interaction, earcon, voice, initial,
}
use riki.Session.Machine.{
  trigger_in, apply_trigger, first_audio_in, closed_in, apply_capture, speech_in, apply_speech,
  submitted_in, response_started_in, response_ended_in, apply_turn, apply_mute, timer_in,
  apply_timer, apply, reduce, gesture_of, no_speech, is_idle,
}
use riki.Session.Invariant.{ids, IsValid}
use riki.Session.Invariant.Fields.{
  enter-Entered, pending-enter, pending-enter_kept, pending-cancel, schedule-Unmoved,
  cancel-Unmoved,
}
use riki.Session.Invariant.Preserved.{
  Good, to_idle-Good, begin_capture-Good, to_listening-Good, to_processing-Good, raise_fault-Good,
}

single_timer :
    (ts : List PendingTimer) (id : TimerId)
    → ids ts ≡ id ∷ []
    → (t : PendingTimer) × (ts ≡ t ∷ []) × (t.id ≡ id)
single_timer [] id h = cc
single_timer (t ∷ []) id h = (t, refl, ground arith)
single_timer (t ∷ u ∷ ts) id h = cc

module _ (now : ℕ) where
  trigger_in-Good :
      (p : Phase) (d : Draft) (event : TriggerEvent)
      → d.phase ≡ p
      → d.muted ≡ false
      → Good d
      → Good (trigger_in p d event now)
  unfolding trigger_in barge_in
  trigger_in-Good idle d event e m g =
      ground (arith, begin_capture-Good now d (gesture_of event) g.reported_once m)
  trigger_in-Good (armed gesture) d event e m g =
      ground (arith, to_idle-Good now (earcon d capture_end) g.reported_once)
  trigger_in-Good (listening gesture t) d event e m g =
      ground (arith, to_processing-Good now d true g.reported_once m)
  trigger_in-Good speaking d event e m g =
      ground (
        arith,
        to_listening-Good now (voice d (interrupt now)) (gesture_of event) g.reported_once m,
      )
  trigger_in-Good (processing t) d event e m g =
      ground (arith, begin_capture-Good now (voice d abort) (gesture_of event) g.reported_once m)
  trigger_in-Good (Phase.error fault) d event e m g =
      ground (arith, begin_capture-Good now d (gesture_of event) g.reported_once m)

  cancel_interaction-Good : (d : Draft) → Good d → Good (cancel_interaction d now)
  unfolding cancel_interaction
  cancel_interaction-Good d g = ground (arith, to_idle-Good now (voice d abort) g.reported_once)

  apply_trigger-Good :
      (d : Draft) (event : TriggerEvent) → Good d → Good (apply_trigger d event now)
  unfolding apply_trigger
  apply_trigger-Good d TriggerEvent.cancel g = cancel_interaction-Good d g
  apply_trigger-Good d event g = elim (Bool-cases d.muted) [
    | inl m ↦ ground arith
    | inr m ↦ ground (arith, trigger_in-Good d.phase d event refl m g)
  ]

  first_audio_in-Good :
      (p : Phase) (d : Draft) → d.phase ≡ p → Good d → Good (first_audio_in p d now)
  unfolding first_audio_in
  first_audio_in-Good (armed gesture) d e g =
      let keep = listen_timeout ∷ [] in
      let d0 = record d { reported = [] } in
      let (t, one, kept) = single_timer d.pending listen_timeout (ground arith) in
      ground (
        arith,
        enter-Entered d0 (listening gesture none) now keep,
        pending-enter_kept d0 (listening gesture none) now keep t one (ground (arith, kept)),
      )
  first_audio_in-Good _ d e g = g

  closed_in-Good : (p : Phase) (d : Draft) → d.phase ≡ p → Good d → Good (closed_in p d now)
  unfolding closed_in
  closed_in-Good (armed gesture) d e g = to_idle-Good now (earcon d capture_end) g.reported_once
  closed_in-Good (listening gesture t) d e g =
      to_idle-Good now (earcon d capture_end) g.reported_once
  closed_in-Good _ d e g = g

  apply_capture-Good :
      (d : Draft) (event : CaptureEvent) → Good d → Good (apply_capture d event now)
  unfolding apply_capture
  apply_capture-Good d opened g = g
  apply_capture-Good d first_audio g = first_audio_in-Good d.phase d refl g
  apply_capture-Good d closed g = closed_in-Good d.phase d refl g

  -- Taking one timer out of those that a listening phase can have.
  ids-without :
      (id : TimerId) (ts : List PendingTimer)
      → ids (without id ts) ≡ filter (λ k. not (same TimerId-discrete k id)) (ids ts)
  ids-without id [] = refl
  ids-without id (t ∷ ts) = ground (arith, ids-without id ts)

  ids-append : (xs ys : List PendingTimer) → ids (xs ++ ys) ≡ ids xs ++ ids ys
  ids-append [] ys = refl
  ids-append (t ∷ xs) ys = ap (λ r. t.id ∷ r) (ids-append xs ys)

  ids-schedule :
      (d : Draft) (id : TimerId) (ms : ℕ)
      → ids (schedule d id ms now).pending
        ≡ filter (λ k. not (same TimerId-discrete k id)) (ids d.pending) ++ id ∷ []
  unfolding schedule
  ids-schedule d id ms =
      ids-append (without id d.pending) _ ∙ ap (λ r. r ++ id ∷ []) (ids-without id d.pending)

  ids-cancel :
      (d : Draft) (id : TimerId)
      → ids (cancel d id).pending ≡ filter (λ k. not (same TimerId-discrete k id)) (ids d.pending)
  ids-cancel d id = ap ids (pending-cancel d id) ∙ ids-without id d.pending

  speech_in-Good :
      (p : Phase) (d : Draft) (event : SpeechEvent)
      → d.phase ≡ p
      → Good d
      → Good (speech_in p d event now)
  unfolding speech_in
  speech_in-Good (listening gesture none) d silence e g =
      let d1 = record d { phase = listening gesture (some now) } in
      ground (
        arith,
        ids-schedule d1 silence_nudge d.env.silence_nudge_ms,
        schedule-Unmoved d1 silence_nudge d.env.silence_nudge_ms now,
      )
  speech_in-Good (listening gesture (some t)) d resumed e g =
      let d1 = record d { phase = listening gesture none } in
      ground (arith, ids-cancel d1 silence_nudge, cancel-Unmoved d1 silence_nudge)
  speech_in-Good _ d _ e g = g

  submitted_in-Good : (p : Phase) (d : Draft) → d.phase ≡ p → Good d → Good (submitted_in p d now)
  unfolding submitted_in
  submitted_in-Good (listening gesture t) d e g =
      to_processing-Good now d false g.reported_once (ground arith)
  submitted_in-Good _ d e g = g

  response_started_in-Good :
      (p : Phase) (d : Draft) → d.phase ≡ p → Good d → Good (response_started_in p d now)
  unfolding response_started_in
  response_started_in-Good idle d e g = g
  response_started_in-Good speaking d e g = g
  response_started_in-Good _ d e g =
      let d0 = record d { reported = [] } in
      ground (arith, enter-Entered d0 speaking now [], pending-enter d0 speaking now)

  response_ended_in-Good :
      (p : Phase) (d : Draft) → d.phase ≡ p → Good d → Good (response_ended_in p d now)
  unfolding response_ended_in
  response_ended_in-Good speaking d e g =
      ground
        (arith, to_listening-Good now d latch g.reported_once, to_idle-Good now d g.reported_once)
  response_ended_in-Good _ d e g = g

  apply_turn-Good : (d : Draft) (event : TurnEvent) → Good d → Good (apply_turn d event now)
  unfolding apply_turn
  apply_turn-Good d submitted g = submitted_in-Good d.phase d refl g
  apply_turn-Good d response_started g = response_started_in-Good d.phase d refl g
  apply_turn-Good d response_ended g = response_ended_in-Good d.phase d refl g

  apply_mute-Good : (d : Draft) (muted : Bool) → Good d → Good (apply_mute d muted now)
  unfolding apply_mute
  apply_mute-Good d muted g =
      let d1 = record d { muted = muted } in
      ground (arith, to_idle-Good now (if is_idle d.phase then d1 else voice d1 abort))

  ids-forget :
      (d : Draft) (id : TimerId)
      → ids (forget d id).pending ≡ filter (λ k. not (same TimerId-discrete k id)) (ids d.pending)
  unfolding forget
  ids-forget d id = ids-without id d.pending

  no_speech-Good :
      (d : Draft)
      → Good d
      → is_active d.phase ≡ true
      → Good (raise_fault (forget d listen_timeout) no_speech now)
  unfolding forget
  no_speech-Good d g a =
      raise_fault-Good now (forget d listen_timeout) no_speech g.reported_once (λ n. cc)

  timer_in-Good :
      (p : Phase) (id : TimerId) (d : Draft)
      → d.phase ≡ p
      → Good d
      → Good (timer_in p id (forget d id) now)
  unfolding timer_in forget
  timer_in-Good (armed gesture) listen_timeout d e g = no_speech-Good d g (ground arith)
  timer_in-Good (listening gesture none) listen_timeout d e g = no_speech-Good d g (ground arith)
  timer_in-Good (listening gesture (some t)) listen_timeout d e g =
      no_speech-Good d g (ground arith)
  timer_in-Good (Phase.error fault) error_dismiss d e g =
      ground (
        arith,
        ids-forget d error_dismiss,
        to_idle-Good now (forget d error_dismiss) g.reported_once,
      )
  timer_in-Good p id d e g = ground (arith, ids-forget d id)

  apply-Good : (d : Draft) (i : MachineInput) → Good d → Good (apply d i now)
  unfolding apply apply_speech apply_timer forget
  apply-Good d (MachineInput.trigger event) g = apply_trigger-Good d event g
  apply-Good d (MachineInput.intent RendererIntent.cancel) g =
      apply_trigger-Good d TriggerEvent.cancel g
  apply-Good d (MachineInput.capture event) g = apply_capture-Good d event g
  apply-Good d (MachineInput.speech event) g = speech_in-Good d.phase d event refl g
  apply-Good d (MachineInput.turn event) g = apply_turn-Good d event g
  apply-Good d (MachineInput.fault fault) g = raise_fault-Good now d fault g.reported_once (λ _. g)
  apply-Good d (MachineInput.mute muted) g = apply_mute-Good d muted g
  apply-Good d (MachineInput.settings env) g = ground arith
  apply-Good d (MachineInput.timer id) g = timer_in-Good d.phase id d refl g

-- Every input, at any time and in any state that satisfies the invariant, keeps it: the pending
-- timers are those of the phase, no capture is open while muted, `latched` says how an open capture
-- ends and is off at rest and in Error, and no fault kind is reported twice.
pub reduce-IsValid :
    (s : MachineState) (i : MachineInput) (now : ℕ) → IsValid s → IsValid (reduce s i now).state
unfolding reduce
reduce-IsValid s i now v = apply-Good now (draft_of s) i (record {
  timers_fit = v.timers_fit;
  muted_quiet = v.muted_quiet;
  latch_fits = v.latch_fits;
  reported_once = v.reported_once;
})

pub initial-IsValid : (env : MachineEnvironment) (now : ℕ) → IsValid (initial env now)
unfolding initial
initial-IsValid env now = ground arith
