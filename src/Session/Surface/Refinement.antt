-- ===== src/Session/Surface/Refinement.antt =====
-- `step` and `perform` of session/runtime.ts beside the surface.
use riki.Prelude.{
  ℕ, ◌≡◌, refl, Bool, true, false, List, [], ◌∷◌, ◌++◌, arith, if◌then◌else◌, map, same,
}
use riki.Session.Types.{MachineState, MachineInput}
use riki.Session.Draft.{Draft, draft_of, is_speaking, commit, forget}
use riki.Session.Machine.{apply, reduce}
use riki.Session.Runtime.{
  Call, notify, PhaseKind, PhaseKind-discrete, kind_of, perform_all, Runtime, step,
}
use riki.Session.Surface.{Surface, absorb, absorb_all, fire, meter_of, visible_of}
use riki.Session.Surface.Trace.{after, absorb_all-append, after-nil}
use riki.Session.Surface.Moves.{Agrees}
use riki.Session.Surface.Inputs.{Ready}
use riki.Session.Surface.Timers.{started, apply-Agrees}
use riki.Session.Surface.Reordering.{commit-SameKept, commit-visible, commit-chip, count-project}

-- The sinks show the state: the clock runs exactly its pending timers, other sound is ducked
-- exactly in Speaking, the meter runs as the phase wants, the window is visible unless the chip is
-- hidden, and the chip has the state's revision.
pub record Shows (w : Surface) (s : MachineState) : Type 0 where
  pub timers_shown : w.timers ≡ s.pending
  pub ducked_shown : w.ducked ≡ is_speaking s.phase
  pub meter_shown : w.meter ≡ meter_of s.phase
  pub visible_shown : w.visible ≡ visible_of s.phase s.muted
  pub chip_shown : w.chip_revision ≡ s.revision

started-Ready :
    (st : MachineState) (s : MachineState) (i : MachineInput) (now : ℕ) (w : Surface)
    → Shows w s
    → Ready st now (fire i w) (started i (draft_of s))
unfolding fire forget
started-Ready st s (MachineInput.timer id) now w h =
    ground (arith, after-nil st now (fire (MachineInput.timer id) w))
started-Ready st s (MachineInput.trigger e) now w h = ground (arith, after-nil st now w)
started-Ready st s (MachineInput.capture e) now w h = ground (arith, after-nil st now w)
started-Ready st s (MachineInput.speech e) now w h = ground (arith, after-nil st now w)
started-Ready st s (MachineInput.turn e) now w h = ground (arith, after-nil st now w)
started-Ready st s (MachineInput.fault e) now w h = ground (arith, after-nil st now w)
started-Ready st s (MachineInput.mute e) now w h = ground (arith, after-nil st now w)
started-Ready st s (MachineInput.settings e) now w h = ground (arith, after-nil st now w)
started-Ready st s (MachineInput.intent e) now w h = ground (arith, after-nil st now w)

commit-Shows :
    (d : Draft) (now : ℕ) (w : Surface)
    → let t = commit d in Agrees t.state now w d → Shows (after t.state now w t.effects) t.state
unfolding commit
commit-Shows d now w a =
    let st = (commit d).state in
    ground (
      arith,
      commit-SameKept st now w d.effects,
      commit-visible st now w d.effects,
      commit-chip st now w d.effects,
      count-project st now d.effects,
    )

reduce-Shows :
    (s : MachineState) (i : MachineInput) (now : ℕ) (w : Surface)
    → Shows w s
    → let t = reduce s i now in Shows (after t.state now (fire i w) t.effects) t.state
unfolding reduce
reduce-Shows s i now w h =
    let d = apply (draft_of s) i now in
    let st = (commit d).state in
    commit-Shows d now (fire i w)
      (apply-Agrees st now (fire i w) (draft_of s) i (started-Ready st s i now w h))

-- `after` is what the calls of `perform_all` do.
reduce_calls-Shows :
    (s : MachineState) (i : MachineInput) (now : ℕ) (w : Surface)
    → Shows w s
    → let t = reduce s i now in
      Shows (absorb_all now (fire i w) (perform_all t.state now t.effects)) t.state
unfolding after
reduce_calls-Shows s i now w h = reduce-Shows s i now w h

telling-same :
    (now : ℕ) (w : Surface) (s : MachineState) (ids : List ℕ)
    → absorb_all now w (map (λ id. notify id s) ids) ≡ w
unfolding absorb_all absorb
telling-same now w s [] = refl
telling-same now w s (id ∷ ids) = telling-same now w s ids

reporting-same :
    (now : ℕ) (w : Surface) (b : Bool) (p q : PhaseKind)
    → absorb_all now w (if b then [] else Call.transition p q now ∷ []) ≡ w
unfolding absorb_all absorb
reporting-same now w true p q = refl
reporting-same now w false p q = refl

-- Whatever input a step handles, in whatever state, the calls that it makes take sinks that show
-- the state before to sinks that show the state after.
pub step-Shows :
    (r : Runtime) (i : MachineInput) (now : ℕ) (w : Surface)
    → Shows w r.state
    → Shows (absorb_all now (fire i w) (step r i now).1) (step r i now).0.state
unfolding step
step-Shows r i now w h =
    let t = reduce r.state i now in
    let effects = perform_all t.state now t.effects in
    let p = kind_of r.state.phase in
    let q = kind_of t.state.phase in
    let b = same PhaseKind-discrete p q in
    let report = if b then [] else Call.transition p q now ∷ [] in
    let tell = map (λ id. notify id t.state) r.subscribers in
    let w1 = absorb_all now (fire i w) effects in
    rw
      (
        absorb_all-append now (fire i w) (effects ++ report) tell,
        absorb_all-append now (fire i w) effects report,
        reporting-same now w1 b p q,
        telling-same now w1 t.state r.subscribers,
      )
      (reduce_calls-Shows r.state i now w h)
