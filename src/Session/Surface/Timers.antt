-- ===== src/Session/Surface/Timers.antt =====
-- The inputs that are no user event (mute, timers), and the dispatch over all inputs.
use riki.Prelude.{ℕ, ◌≡◌, refl, Bool, false, some, arith, if◌then◌else◌}
use riki.Session.Types.{
  MachineState, MachineInput, Effect, Phase, armed, listening, processing, TriggerEvent,
  RendererIntent, TimerId, silence_nudge, listen_timeout, elapsed_hint, cancel_hint, error_dismiss,
  abort, hide_hold_ms,
}
use riki.Session.Draft.{Draft, forget, project, voice}
use riki.Session.Machine.{
  apply_mute, is_idle, no_speech, timer_in, apply_timer, apply_speech, apply,
}
use riki.Session.Runtime.{perform, perform_all}
use riki.Session.Surface.{Surface, absorb, absorb_all}
use riki.Session.Surface.Moves.{Agrees, emit-facts, project-facts, voice-facts, to_idle-Agrees}
use riki.Session.Surface.Composites.{raise_fault-Agrees}
use riki.Session.Surface.Inputs.{
  Ready, apply_trigger-Agrees, apply_capture-Agrees, speech_in-Agrees, apply_turn-Agrees,
}

-- The draft that an input is applied to, once a timer that fires is forgotten.
abbrev pub started : MachineInput → Draft → Draft
started (MachineInput.timer id) d = forget d id
started _ d = d

module _ (st : MachineState) (now : ℕ) (w : Surface) where
  apply_mute-Agrees :
      (d : Draft) (muted : Bool) → Ready st now w d → Agrees st now w (apply_mute d muted now)
  unfolding apply_mute absorb_all perform_all absorb perform
  apply_mute-Agrees d muted r =
      let d1 = record d { muted = muted } in
      let d2 = if is_idle d1.phase then d1 else voice d1 abort in
      ground (
        arith,
        voice-facts st now w d1 abort r.0.0,
        to_idle-Agrees st now w d2,
        project-facts st now w d1 r.0.0,
        emit-facts st now w (project d1) (Effect.window false (some hide_hold_ms)),
      )

  project-Agrees : (d : Draft) → Ready st now w d → Agrees st now w (project d)
  project-Agrees d r = ground (arith, project-facts st now w d r.0.0)

  timer_in-Agrees :
      (p : Phase) (id : TimerId) (d : Draft)
      → d.phase ≡ p
      → Ready st now w d
      → Agrees st now w (timer_in p id d now)
  unfolding timer_in
  timer_in-Agrees (listening gesture (some t)) silence_nudge d e r = project-Agrees d r
  timer_in-Agrees (armed gesture) listen_timeout d e r =
      raise_fault-Agrees st now w d no_speech r.0.0 r.1 (λ _. r.0)
  timer_in-Agrees (listening gesture silent_since) listen_timeout d e r =
      raise_fault-Agrees st now w d no_speech r.0.0 r.1 (λ _. r.0)
  timer_in-Agrees (processing started_at) elapsed_hint d e r = project-Agrees d r
  timer_in-Agrees (processing started_at) cancel_hint d e r = project-Agrees d r
  timer_in-Agrees (Phase.error fault) error_dismiss d e r =
      ground (arith, to_idle-Agrees st now w d r.0.0 r.1)
  timer_in-Agrees _ _ d e r = r.0

  pub apply-Agrees :
      (d : Draft) (i : MachineInput)
      → Ready st now w (started i d)
      → Agrees st now w (apply d i now)
  unfolding apply apply_speech apply_timer forget
  apply-Agrees d (MachineInput.trigger event) r = apply_trigger-Agrees st now w d event r
  apply-Agrees d (MachineInput.intent RendererIntent.cancel) r =
      apply_trigger-Agrees st now w d TriggerEvent.cancel r
  apply-Agrees d (MachineInput.capture event) r = apply_capture-Agrees st now w d event r
  apply-Agrees d (MachineInput.speech event) r = speech_in-Agrees st now w d.phase d event refl r
  apply-Agrees d (MachineInput.turn event) r = apply_turn-Agrees st now w d event r
  apply-Agrees d (MachineInput.fault fault) r =
      raise_fault-Agrees st now w d fault r.0.0 r.1 (λ _. r.0)
  apply-Agrees d (MachineInput.mute muted) r = apply_mute-Agrees d muted r
  apply-Agrees d (MachineInput.settings env) r = project-Agrees (record d { env = env }) r
  apply-Agrees d (MachineInput.timer id) r =
      timer_in-Agrees (forget d id).phase id (forget d id) refl r
