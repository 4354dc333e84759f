-- ===== src/Session/Surface/Composites.antt =====
-- The composite transitions of session/machine.ts beside the surface.
use riki.Prelude.{ℕ, ◌≡◌, Bool, true, false, [], ◌∷◌, ◌++◌, none, arith, if◌then◌else◌}
use riki.Session.Types.{
  MachineState, Effect, Phase, armed, listening, processing, CaptureMode, Fault, capture_end,
  elapsed_hint, cancel_hint, error_dismiss, elapsed_hint_ms, cancel_hint_ms, error_dismiss_ms,
  abort, interrupt, EarconId, input,
}
use riki.Session.Draft.{
  Draft, is_active, enter, begin_capture, to_processing, to_listening, barge_in, announce_fault,
  raise_fault, show, levels, earcon, voice, schedule,
}
use riki.Session.Runtime.{perform, perform_all}
use riki.Session.Surface.{Surface, absorb, absorb_all, visible_of}
use riki.Session.Surface.Moves.{
  Sync, hides, Agrees, enter-Sync, emit-facts, opening, opening-Agrees, schedule-facts,
  project-facts, voice-facts, to_idle-Agrees,
}

module _ (st : MachineState) (now : ℕ) (w : Surface) where
  pub begin_capture-Agrees :
      (d : Draft) (gesture : CaptureMode)
      → Sync st now w d
      → hides st now w d ≡ false
      → Agrees st now w (begin_capture d gesture now)
  unfolding begin_capture opening
  begin_capture-Agrees d gesture h still =
      let (sync, carried, phase) = enter-Sync st now w d (armed gesture) [] h in
      opening-Agrees st now w (enter d (armed gesture) now []) gesture sync (ground arith)
        (ground arith) (ground arith)

  pub to_listening-Agrees :
      (d : Draft) (gesture : CaptureMode)
      → Sync st now w d
      → hides st now w d ≡ false
      → Agrees st now w (to_listening d gesture now)
  unfolding to_listening opening
  to_listening-Agrees d gesture h still =
      let (sync, carried, phase) = enter-Sync st now w d (listening gesture none) [] h in
      opening-Agrees st now w (enter d (listening gesture none) now []) gesture sync (ground arith)
        (ground arith) (ground arith)

  pub barge_in-Agrees :
      (d : Draft) (gesture : CaptureMode)
      → Sync st now w d
      → hides st now w d ≡ false
      → Agrees st now w (barge_in d gesture now)
  unfolding barge_in
  barge_in-Agrees d gesture h still =
      let (sync, carried) = voice-facts st now w d (interrupt now) h in
      to_listening-Agrees (voice d (interrupt now)) gesture sync (ground arith)

  -- The window is already visible where Processing is entered.
  pub to_processing-Agrees :
      (d : Draft) (with_earcon : Bool)
      → Agrees st now w d
      → visible_of d.phase d.muted ≡ true
      → Agrees st now w (to_processing d now with_earcon)
  unfolding to_processing absorb_all perform_all absorb perform
  to_processing-Agrees d with_earcon h v =
      let d0 = enter d (processing now) now [] in
      let d1 = levels d0 false input in
      let d2 = if with_earcon then earcon d1 capture_end else d1 in
      let d3 = schedule d2 elapsed_hint elapsed_hint_ms now in
      let d4 = schedule d3 cancel_hint cancel_hint_ms now in
      ground (
        arith,
        enter-Sync st now w d (processing now) [] h.0,
        emit-facts st now w d0 (Effect.levels false input),
        emit-facts st now w d1 (Effect.earcon capture_end),
        schedule-facts st now w d2 elapsed_hint elapsed_hint_ms,
        schedule-facts st now w d3 cancel_hint cancel_hint_ms,
        project-facts st now w d4,
      )

  pub announce_fault-Agrees :
      (d : Draft) (fault : Fault) (was_active : Bool)
      → Sync st now w d
      → hides st now w d ≡ false
      → Agrees st now w (announce_fault d fault was_active now)
  unfolding announce_fault absorb_all perform_all absorb perform
  announce_fault-Agrees d fault was_active h still =
      let d1 =
        if fault.persistent then record d { reported = d.reported ++ fault.kind ∷ [] } else d in
      let d2 = if was_active then voice d1 abort else d1 in
      let d3 = record (enter d2 (Phase.error fault) now []) { latched = false } in
      let d4 = levels d3 false input in
      let d5 = show (earcon d4 EarconId.error) in
      ground (
        arith,
        voice-facts st now w d1 abort,
        enter-Sync st now w d2 (Phase.error fault) [],
        emit-facts st now w d3 (Effect.levels false input),
        emit-facts st now w d4 (Effect.earcon EarconId.error),
        emit-facts st now w (earcon d4 EarconId.error) (Effect.window true none),
        schedule-facts st now w d5 error_dismiss error_dismiss_ms,
        project-facts st now w d5,
        project-facts st now w (schedule d5 error_dismiss error_dismiss_ms now),
      )

  pub raise_fault-Agrees :
      (d : Draft) (fault : Fault)
      → Sync st now w d
      → hides st now w d ≡ false
      → (is_active d.phase ≡ false → Agrees st now w d)
      → Agrees st now w (raise_fault d fault now)
  unfolding raise_fault
  raise_fault-Agrees d fault h still rest = ground (
    arith,
    to_idle-Agrees st now w d h still,
    announce_fault-Agrees d fault (is_active d.phase) h still,
    rest,
  )
