-- ===== src/Session/Surface/Inputs.antt =====
-- The handlers of user events of session/machine.ts beside the surface.
use riki.Prelude.{ℕ, ◌≡◌, refl, true, false, [], ◌∷◌, some, none, arith}
use riki.Session.Types.{
  MachineState, Effect, Phase, idle, armed, listening, processing, speaking, latch, TriggerEvent,
  CaptureEvent, opened, first_audio, closed, SpeechEvent, silence, resumed, TurnEvent, submitted,
  response_started, response_ended, silence_nudge, listen_timeout, capture_end, abort, output,
}
use riki.Session.Draft.{
  Draft, enter, to_idle, cancel_interaction, show, project, levels, earcon, voice, cancel,
}
use riki.Session.Machine.{
  gesture_of, trigger_in, apply_trigger, first_audio_in, closed_in, apply_capture, speech_in,
  submitted_in, response_started_in, response_ended_in, apply_turn,
}
use riki.Session.Runtime.{perform, perform_all}
use riki.Session.Surface.{Surface, absorb, absorb_all}
use riki.Session.Surface.Moves.{
  hides, Agrees, enter-Sync, emit-facts, schedule-facts, cancel-facts, project-facts, earcon-facts,
  voice-facts, to_idle-Agrees,
}
use riki.Session.Surface.Composites.{
  begin_capture-Agrees, to_listening-Agrees, barge_in-Agrees, to_processing-Agrees,
}

module _ (st : MachineState) (now : ℕ) (w : Surface) where
  -- A draft on which the window has not been hidden, and which the surface shows.
  abbrev pub Ready : Draft → Type 0
  Ready d = Agrees st now w d × (hides st now w d ≡ false)

  voice-Ready-idle : (d : Draft) → Ready d → Agrees st now w (to_idle (voice d abort) now)
  voice-Ready-idle d r =
      to_idle-Agrees st now w (voice d abort) (voice-facts st now w d abort r.0.0).0
        (ground (arith, voice-facts st now w d abort r.0.0))

  earcon-Ready-idle : (d : Draft) → Ready d → Agrees st now w (to_idle (earcon d capture_end) now)
  earcon-Ready-idle d r =
      to_idle-Agrees st now w (earcon d capture_end) (earcon-facts st now w d capture_end r.0.0).0
        (ground (arith, earcon-facts st now w d capture_end r.0.0))

  cancel_interaction-Agrees : (d : Draft) → Ready d → Agrees st now w (cancel_interaction d now)
  unfolding cancel_interaction
  cancel_interaction-Agrees d r = ground (arith, voice-Ready-idle d r)

  trigger_in-Agrees :
      (p : Phase) (d : Draft) (event : TriggerEvent)
      → d.phase ≡ p
      → Ready d
      → Agrees st now w (trigger_in p d event now)
  unfolding trigger_in
  trigger_in-Agrees idle d event e r =
      ground (arith, begin_capture-Agrees st now w d (gesture_of event) r.0.0 r.1)
  trigger_in-Agrees (armed gesture) d event e r = ground (arith, earcon-Ready-idle d r)
  trigger_in-Agrees (listening gesture t) d event e r =
      ground (arith, to_processing-Agrees st now w d true r.0)
  trigger_in-Agrees speaking d event e r =
      ground (arith, barge_in-Agrees st now w d (gesture_of event) r.0.0 r.1)
  trigger_in-Agrees (processing t) d event e r = ground (
    arith,
    voice-facts st now w d abort r.0.0,
    begin_capture-Agrees st now w (voice d abort) (gesture_of event),
  )
  trigger_in-Agrees (Phase.error fault) d event e r =
      ground (arith, begin_capture-Agrees st now w d (gesture_of event) r.0.0 r.1)

  pub apply_trigger-Agrees :
      (d : Draft) (event : TriggerEvent) → Ready d → Agrees st now w (apply_trigger d event now)
  unfolding apply_trigger
  apply_trigger-Agrees d TriggerEvent.cancel r = cancel_interaction-Agrees d r
  apply_trigger-Agrees d event r = ground (arith, trigger_in-Agrees d.phase d event refl r)

  first_audio_in-Agrees :
      (p : Phase) (d : Draft) → d.phase ≡ p → Ready d → Agrees st now w (first_audio_in p d now)
  unfolding first_audio_in
  first_audio_in-Agrees (armed gesture) d e r =
      let d0 = record d { reported = [] } in
      let d1 = enter d0 (listening gesture none) now (listen_timeout ∷ []) in
      ground (
        arith,
        enter-Sync st now w d0 (listening gesture none) (listen_timeout ∷ []) r.0.0,
        project-facts st now w d1,
      )
  first_audio_in-Agrees _ d e r = r.0

  closed_in-Agrees :
      (p : Phase) (d : Draft) → d.phase ≡ p → Ready d → Agrees st now w (closed_in p d now)
  unfolding closed_in
  closed_in-Agrees (armed gesture) d e r = earcon-Ready-idle d r
  closed_in-Agrees (listening gesture t) d e r = earcon-Ready-idle d r
  closed_in-Agrees _ d e r = r.0

  pub apply_capture-Agrees :
      (d : Draft) (event : CaptureEvent) → Ready d → Agrees st now w (apply_capture d event now)
  unfolding apply_capture
  apply_capture-Agrees d opened r = r.0
  apply_capture-Agrees d first_audio r = first_audio_in-Agrees d.phase d refl r
  apply_capture-Agrees d closed r = closed_in-Agrees d.phase d refl r

  pub speech_in-Agrees :
      (p : Phase) (d : Draft) (event : SpeechEvent)
      → d.phase ≡ p
      → Ready d
      → Agrees st now w (speech_in p d event now)
  unfolding speech_in
  speech_in-Agrees (listening gesture none) d silence e r =
      let d1 = record d { phase = listening gesture (some now) } in
      ground (arith, schedule-facts st now w d1 silence_nudge d.env.silence_nudge_ms)
  speech_in-Agrees (listening gesture (some t)) d resumed e r =
      let d1 = record d { phase = listening gesture none } in
      ground (
        arith,
        cancel-facts st now w d1 silence_nudge,
        project-facts st now w (cancel d1 silence_nudge),
      )
  speech_in-Agrees _ d _ e r = r.0

  submitted_in-Agrees :
      (p : Phase) (d : Draft) → d.phase ≡ p → Ready d → Agrees st now w (submitted_in p d now)
  unfolding submitted_in
  submitted_in-Agrees (listening gesture t) d e r =
      to_processing-Agrees st now w d false r.0 (ground arith)
  submitted_in-Agrees _ d e r = r.0

  speaks-Agrees :
      (d : Draft)
      → Ready d
      → let d1 = enter (record d { reported = [] }) speaking now [] in
        Agrees st now w (project (levels (show d1) true output))
  unfolding absorb_all perform_all absorb perform
  speaks-Agrees d r =
      let d0 = record d { reported = [] } in
      let d1 = enter d0 speaking now [] in
      ground (
        arith,
        enter-Sync st now w d0 speaking [] r.0.0,
        emit-facts st now w d1 (Effect.window true none),
        emit-facts st now w (show d1) (Effect.levels true output),
        project-facts st now w (levels (show d1) true output),
      )

  response_started_in-Agrees :
      (p : Phase) (d : Draft)
      → d.phase ≡ p
      → Ready d
      → Agrees st now w (response_started_in p d now)
  unfolding response_started_in
  response_started_in-Agrees idle d e r = r.0
  response_started_in-Agrees speaking d e r = r.0
  response_started_in-Agrees _ d e r = speaks-Agrees d r

  response_ended_in-Agrees :
      (p : Phase) (d : Draft) → d.phase ≡ p → Ready d → Agrees st now w (response_ended_in p d now)
  unfolding response_ended_in
  response_ended_in-Agrees speaking d e r =
      ground
        (arith, to_listening-Agrees st now w d latch r.0.0 r.1, to_idle-Agrees st now w d r.0.0 r.1)
  response_ended_in-Agrees _ d e r = r.0

  pub apply_turn-Agrees :
      (d : Draft) (event : TurnEvent) → Ready d → Agrees st now w (apply_turn d event now)
  unfolding apply_turn
  apply_turn-Agrees d submitted r = submitted_in-Agrees d.phase d refl r
  apply_turn-Agrees d response_started r = response_started_in-Agrees d.phase d refl r
  apply_turn-Agrees d response_ended r = response_ended_in-Agrees d.phase d refl r
