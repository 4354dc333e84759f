-- ===== src/Session/Surface/Moves.antt =====
-- The emitters and the composite transitions, with the surface beside the draft.
use riki.Prelude.{
  ℕ, ◌+◌, ◌≡◌, refl, Bool, true, false, ◌||◌, List, [], ◌∷◌, Option, some, none, arith, any,
  any-append, count, count-append, if◌then◌else◌,
}
use riki.Session.Types.{
  MachineState, Effect, TimerId, PendingTimer, Phase, idle, CaptureMode, VoiceCommand,
  capture_start, listen_timeout, hide_hold_ms, EarconId, LevelSource, input,
}
use riki.Session.Draft.{
  Draft, is_show, is_speaking, schedule, cancel, includes, cancel_unkept, is_latch, enter, to_idle,
  emit, show, hide, project, levels, earcon, voice,
}
use riki.Session.Runtime.{perform, perform_all}
use riki.Session.Surface.{Surface, absorb, absorb_all, meter_of, visible_of}
use riki.Session.Surface.Trace.{after, after-append, is_hide, is_project}

module _ (st : MachineState) (now : ℕ) (w : Surface) where
  -- After every single effect the clock's timers, the ducking and the revision are right.
  abbrev pub Sync : Draft → Type 0
  Sync d =
      ((after st now w d.effects).timers ≡ d.pending)
      × ((after st now w d.effects).ducked ≡ is_speaking d.phase)
      × (d.revision ≡ w.chip_revision + count is_project d.effects)

  abbrev pub meter_after : Draft → Option LevelSource
  meter_after d = (after st now w d.effects).meter

  -- Whether the effects hide the window, and whether they show it.
  abbrev pub hides : Draft → Bool
  hides d = any is_hide d.effects

  abbrev pub shows : Draft → Bool
  shows d = any is_show d.effects

  after-emit :
      (d : Draft) (e : Effect)
      → after st now w (emit d e).effects
        ≡ absorb_all now (after st now w d.effects) (perform_all st now (e ∷ []))
  after-emit d e = after-append st now w d.effects (e ∷ [])

  -- What one more effect does to the surface and to what its effects count.
  pub emit-facts :
      (d : Draft) (e : Effect)
      → (after st now w (emit d e).effects
          ≡ absorb_all now (after st now w d.effects) (perform_all st now (e ∷ [])))
        × (hides (emit d e) ≡ (hides d || is_hide e))
        × (shows (emit d e) ≡ (shows d || is_show e))
        × (count is_project (emit d e).effects
            ≡ count is_project d.effects + count is_project (e ∷ []))
  emit-facts d e = ground (
    arith,
    after-emit d e,
    any-append is_hide d.effects (e ∷ []),
    any-append is_show d.effects (e ∷ []),
    count-append is_project d.effects (e ∷ []),
  )

  schedule-Sync : (d : Draft) (id : TimerId) (ms : ℕ) → Sync d → Sync (schedule d id ms now)
  unfolding schedule absorb_all perform_all absorb perform
  schedule-Sync d id ms h = ground (arith, emit-facts d (Effect.schedule id ms))

  cancel-Sync : (d : Draft) (id : TimerId) → Sync d → Sync (cancel d id)
  unfolding cancel absorb_all perform_all absorb perform
  cancel-Sync d id h = ground (arith, emit-facts d (Effect.cancel id))

  -- What a step leaves alone: the draft's settings, the meter, and the window's effects.
  pub record Carries (d e : Draft) : Type 0 where
    pub muted_same : e.muted ≡ d.muted
    pub latched_same : e.latched ≡ d.latched
    pub reported_same : e.reported ≡ d.reported
    pub meter_same : meter_after e ≡ meter_after d
    pub hides_same : hides e ≡ hides d
    pub shows_same : shows e ≡ shows d

  cancel-Carries : (d : Draft) (id : TimerId) → Carries d (cancel d id)
  unfolding cancel absorb_all perform_all absorb perform
  cancel-Carries d id = ground (arith, emit-facts d (Effect.cancel id))

  cancel-phase : (d : Draft) (id : TimerId) → (cancel d id).phase ≡ d.phase
  unfolding cancel
  cancel-phase d id = ground arith

  cancel_unless-Sync :
      (d : Draft) (kept : Bool) (id : TimerId)
      → Sync d
      → let e = if kept then d else cancel d id in Sync e × Carries d e × (e.phase ≡ d.phase)
  cancel_unless-Sync d true id h = (h, ground arith, refl)
  cancel_unless-Sync d false id h = (cancel-Sync d id h, cancel-Carries d id, cancel-phase d id)

  cancel_unkept-Sync :
      (d : Draft) (keep : List TimerId) (ts : List PendingTimer)
      → Sync d
      → Sync (cancel_unkept d keep ts)
        × Carries d (cancel_unkept d keep ts)
        × ((cancel_unkept d keep ts).phase ≡ d.phase)
  unfolding cancel_unkept
  cancel_unkept-Sync d keep [] h = (h, ground arith, refl)
  cancel_unkept-Sync d keep (t ∷ ts) h =
      let e = if includes keep t.id then d else cancel d t.id in
      let (sync, carried, phase) = cancel_unless-Sync d (includes keep t.id) t.id h in
      ground (arith, carried, phase, cancel_unkept-Sync e keep ts sync)

  pub enter-Sync :
      (d : Draft) (next : Phase) (keep : List TimerId)
      → Sync d
      → Sync (enter d next now keep)
        × Carries d (enter d next now keep)
        × ((enter d next now keep).phase ≡ next)
  unfolding enter absorb_all perform_all absorb perform
  enter-Sync d next keep h =
      let d1 = cancel_unkept d keep d.pending in
      let d2 = record d1 { phase = next; since = now } in
      ground (
        arith,
        cancel_unkept-Sync d keep d.pending h,
        emit-facts d1 (Effect.duck false),
        emit-facts d2 (Effect.duck true),
      )

  -- The window as the effects leave it once `commit` has put the shows first.
  abbrev pub visible_after : Draft → Bool
  visible_after d = if hides d then false else if shows d then true else w.visible

  -- The surface shows the draft's phase.
  abbrev pub Agrees : Draft → Type 0
  Agrees d =
      Sync d × (meter_after d ≡ meter_of d.phase) × (visible_after d ≡ visible_of d.phase d.muted)

  pub to_idle-Agrees : (d : Draft) → Sync d → hides d ≡ false → Agrees (to_idle d now)
  unfolding to_idle absorb_all perform_all absorb perform
  to_idle-Agrees d h still =
      let d1 = record (enter d idle now []) { latched = false } in
      let d2 = levels d1 false input in
      ground (
        arith,
        enter-Sync d idle [] h,
        emit-facts d1 (Effect.levels false input),
        emit-facts d2 (Effect.window true none),
        emit-facts d2 (Effect.window false (some hide_hold_ms)),
        emit-facts (show d2) Effect.project,
        emit-facts (hide d2) Effect.project,
      )

  -- The tail that `begin_capture` and `to_listening` share.
  unfoldable pub opening : Draft → CaptureMode → Draft
  opening d1 gesture =
      let d2 = show (record d1 { latched = is_latch gesture }) in
      let d3 = earcon (levels d2 true input) capture_start in
      project (schedule d3 listen_timeout d3.env.listen_timeout_ms now)

  pub schedule-facts :
      (d : Draft) (id : TimerId) (ms : ℕ)
      → Sync d
      → Sync (schedule d id ms now)
        × Carries d (schedule d id ms now)
        × ((schedule d id ms now).phase ≡ d.phase)
  unfolding schedule absorb_all perform_all absorb perform
  schedule-facts d id ms h = ground (arith, emit-facts d (Effect.schedule id ms))

  pub project-facts : (d : Draft) → Sync d → Sync (project d) × Carries d (project d)
  unfolding absorb_all perform_all absorb perform
  project-facts d h = ground (arith, emit-facts d Effect.project)

  pub opening-Agrees :
      (d1 : Draft) (gesture : CaptureMode)
      → Sync d1
      → hides d1 ≡ false
      → meter_of d1.phase ≡ some input
      → visible_of d1.phase d1.muted ≡ true
      → Agrees (opening d1 gesture)
  unfolding opening absorb_all perform_all absorb perform
  opening-Agrees d1 gesture h still m v =
      let d2 = show (record d1 { latched = is_latch gesture }) in
      let d3 = earcon (levels d2 true input) capture_start in
      let d4 = schedule d3 listen_timeout d3.env.listen_timeout_ms now in
      ground (
        arith,
        emit-facts (record d1 { latched = is_latch gesture }) (Effect.window true none),
        emit-facts d2 (Effect.levels true input),
        emit-facts (levels d2 true input) (Effect.earcon capture_start),
        schedule-facts d3 listen_timeout d3.env.listen_timeout_ms,
        project-facts d4,
      )

  -- An earcon or a voice command changes nothing that the surface keeps.
  pub earcon-facts :
      (d : Draft) (sound : EarconId) → Sync d → Sync (earcon d sound) × Carries d (earcon d sound)
  unfolding absorb_all perform_all absorb perform
  earcon-facts d sound h = ground (arith, emit-facts d (Effect.earcon sound))

  pub voice-facts :
      (d : Draft) (command : VoiceCommand)
      → Sync d
      → Sync (voice d command) × Carries d (voice d command)
  unfolding absorb_all perform_all absorb perform
  voice-facts d command h = ground (arith, emit-facts d (Effect.voice command))

  pub cancel-facts :
      (d : Draft) (id : TimerId)
      → Sync d
      → Sync (cancel d id) × Carries d (cancel d id) × ((cancel d id).phase ≡ d.phase)
  cancel-facts d id h = (cancel-Sync d id h, cancel-Carries d id, cancel-phase d id)
