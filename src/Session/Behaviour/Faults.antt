-- ===== src/Session/Behaviour/Faults.antt =====
-- session/machine.ts: `raiseFault` and the `error-dismiss` timer.
use riki.Prelude.{
  ℕ, ◌≡◌, refl, ◌∙◌, Bool, true, false, not, ◌&&◌, ◌||◌, List, [], ◌∷◌, ◌++◌, some, none, arith,
  filter, any, any-append, if◌then◌else◌,
}
use riki.Session.Types.{
  TimerId, PendingTimer, Phase, idle, Fault, MachineState, MachineInput, error_dismiss,
  error_dismiss_ms, hide_hold_ms, Effect, abort, EarconId, input,
}
use riki.Session.Draft.{
  Draft, draft_of, commit, is_show, is_active, was_reported, schedule, cancel, enter, to_idle,
  announce_fault, raise_fault, cancel_unkept, includes, voice, emit, show, hide, levels, earcon,
}
use riki.Session.Machine.{reduce}
use riki.Session.Invariant.Fields.{enter-Entered}

any-filter-split :
    (p q : Effect → Bool) (es : List Effect)
    → (any p (filter q es) || any p (filter (λ e. not (q e)) es)) ≡ any p es
any-filter-split p q [] = refl
any-filter-split p q (e ∷ es) = ground (arith, any-filter-split p q es)

any-commit : (p : Effect → Bool) (d : Draft) → any p (commit d).effects ≡ any p d.effects
unfolding commit
any-commit p d = any-append p (filter is_show d.effects) _ ∙ any-filter-split p is_show d.effects

-- A test that no cancellation and no ducking passes does not see `enter`.
module _ (p : Effect → Bool) (no_cancel : (id : TimerId) → p (Effect.cancel id) ≡ false)
    (no_duck : (on : Bool) → p (Effect.duck on) ≡ false) where
  any-cancel_unkept :
      (d : Draft) (keep : List TimerId) (ts : List PendingTimer)
      → any p (cancel_unkept d keep ts).effects ≡ any p d.effects
  unfolding cancel_unkept cancel
  any-cancel_unkept d keep [] = refl
  any-cancel_unkept d keep (t ∷ ts) = ground (
    arith,
    no_cancel t.id,
    any-append p d.effects (Effect.cancel t.id ∷ []),
    any-cancel_unkept (if includes keep t.id then d else cancel d t.id) keep ts,
  )

  any-enter :
      (d : Draft) (next : Phase) (now : ℕ) (keep : List TimerId)
      → any p (enter d next now keep).effects ≡ any p d.effects
  unfolding enter
  any-enter d next now keep =
      let d1 = cancel_unkept d keep d.pending in
      ground (
        arith,
        no_duck true,
        no_duck false,
        any-append p d1.effects (Effect.duck true ∷ []),
        any-append p d1.effects (Effect.duck false ∷ []),
        any-cancel_unkept d keep d.pending,
      )

abbrev pub is_alarm : Effect → Bool
is_alarm (Effect.earcon EarconId.error) = true
is_alarm _ = false

abbrev pub is_abort : Effect → Bool
is_abort (Effect.voice abort) = true
is_abort _ = false

any-emit :
    (p : Effect → Bool) (d : Draft) (e : Effect)
    → any p (emit d e).effects ≡ (any p d.effects || p e)
any-emit p d e = ground (arith, any-append p d.effects (e ∷ []))

module _ (p : Effect → Bool) (no_cancel : (id : TimerId) → p (Effect.cancel id) ≡ false)
    (no_duck : (on : Bool) → p (Effect.duck on) ≡ false)
    (no_levels : p (Effect.levels false input) ≡ false)
    (no_show : p (Effect.window true none) ≡ false)
    (no_hide : p (Effect.window false (some hide_hold_ms)) ≡ false)
    (no_project : p Effect.project ≡ false) where
  any-to_idle : (d : Draft) (now : ℕ) → any p (to_idle d now).effects ≡ any p d.effects
  unfolding to_idle
  any-to_idle d now =
      let d1 = record (enter d idle now []) { latched = false } in
      let d2 = levels d1 false input in
      ground (
        arith,
        no_levels,
        no_show,
        no_hide,
        no_project,
        any-enter p no_cancel no_duck d idle now [],
        any-emit p d1 (Effect.levels false input),
        any-emit p d2 (Effect.window true none),
        any-emit p d2 (Effect.window false (some hide_hold_ms)),
        any-emit p (show d2) Effect.project,
        any-emit p (hide d2) Effect.project,
      )

  -- What is left of an announced fault: the earcon, and the dismissal if the fault passes.
  any-announce_fault :
      (d : Draft) (fault : Fault) (was_active : Bool) (now : ℕ)
      → p (Effect.schedule error_dismiss error_dismiss_ms) ≡ false
      → any p (announce_fault d fault was_active now).effects ≡ (
          any p d.effects
          || (was_active && p (Effect.voice abort))
          || p (Effect.earcon EarconId.error))
  unfolding announce_fault schedule
  any-announce_fault d fault was_active now no_schedule =
      let d1 =
        if fault.persistent then record d { reported = d.reported ++ fault.kind ∷ [] } else d in
      let d2 = if was_active then voice d1 abort else d1 in
      let d3 = record (enter d2 (Phase.error fault) now []) { latched = false } in
      let d4 = levels d3 false input in
      let d5 = earcon d4 EarconId.error in
      let d6 = show d5 in
      ground (
        arith,
        no_levels,
        no_show,
        no_project,
        no_schedule,
        any-emit p d1 (Effect.voice abort),
        any-enter p no_cancel no_duck d2 (Phase.error fault) now [],
        any-emit p d3 (Effect.levels false input),
        any-emit p d4 (Effect.earcon EarconId.error),
        any-emit p d5 (Effect.window true none),
        any-emit p d6 Effect.project,
        any-emit p d6 (Effect.schedule error_dismiss error_dismiss_ms),
        any-emit p (schedule d6 error_dismiss error_dismiss_ms now) Effect.project,
      )

to_idle-phase : (d : Draft) (now : ℕ) → (to_idle d now).phase ≡ idle
unfolding to_idle
to_idle-phase d now = ground (arith, enter-Entered d idle now [])

announce_fault-phase :
    (d : Draft) (fault : Fault) (was_active : Bool) (now : ℕ)
    → (announce_fault d fault was_active now).phase ≡ Phase.error fault
unfolding announce_fault schedule
announce_fault-phase d fault was_active now =
    let d1 =
      if fault.persistent then record d { reported = d.reported ++ fault.kind ∷ [] } else d in
    let d2 = if was_active then voice d1 abort else d1 in
    ground (arith, enter-Entered d2 (Phase.error fault) now [])

abbrev pub already : MachineState → Fault → Bool
already s fault = fault.persistent && was_reported s.reported fault.kind

-- Whatever phase a fault arrives in: the error earcon sounds exactly if the fault is not a
-- persistent one that was reported before; the turn is aborted exactly if it is announced and the
-- machine was active; and the machine goes to Error with that fault if it is announced, and else
-- goes to, or stays in, Idle if it was active and stays as it was if it was not.
pub fault_announced_once :
    (s : MachineState) (fault : Fault) (now : ℕ)
    → let t = reduce s (MachineInput.fault fault) now in
      (any is_alarm t.effects ≡ not (already s fault))
      × (any is_abort t.effects ≡ (not (already s fault) && is_active s.phase))
      × (t.state.phase ≡ (
          if already s fault
          then if is_active s.phase then idle else s.phase
          else Phase.error fault))
unfolding reduce raise_fault commit
fault_announced_once s fault now =
    let d = draft_of s in
    ground (
      arith,
      any-commit is_alarm (raise_fault d fault now),
      any-commit is_abort (raise_fault d fault now),
      any-to_idle is_alarm (λ id. refl) (λ on. refl) refl refl refl refl d now,
      any-to_idle is_abort (λ id. refl) (λ on. refl) refl refl refl refl d now,
      any-announce_fault is_alarm (λ id. refl) (λ on. refl) refl refl refl refl d fault
          (is_active s.phase) now refl,
      any-announce_fault is_abort (λ id. refl) (λ on. refl) refl refl refl refl d fault
          (is_active s.phase) now refl,
      to_idle-phase d now,
      announce_fault-phase d fault (is_active s.phase) now,
    )
