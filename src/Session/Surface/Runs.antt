-- ===== src/Session/Surface/Runs.antt =====
-- The dispatch loop of session/runtime.ts as a whole, with callees that dispatch while it runs.
use riki.Prelude.{
  ℕ, zero, suc, ◌+◌, ◌<◌, ◌≡◌, refl, ap, subst, ◌∙◌, Bool, true, false, List, [], ◌∷◌, ◌++◌, Option,
  some, arith, all,
}
use riki.Session.Types.{MachineInput}
use riki.Session.Runtime.{
  Call, Runtime, step, reactions, round, stamp, logged, drain_from, dispatch,
}
use riki.Session.Surface.{Surface, absorb, absorb_all, fire}
use riki.Session.Surface.Refinement.{Shows, step-Shows}
use riki.Session.Surface.Handled.{steps, dispatched, drain_from-Handles}

pub absorb_log : Surface → List (ℕ × Call) → Surface
absorb_log w [] = w
absorb_log w ((now, c) ∷ log) = absorb_log (absorb now w c) log

absorb_log-append :
    (w : Surface) (xs ys : List (ℕ × Call))
    → absorb_log w (xs ++ ys) ≡ absorb_log (absorb_log w xs) ys
unfolding absorb_log
absorb_log-append w [] ys = refl
absorb_log-append w ((now, c) ∷ xs) ys = absorb_log-append (absorb now w c) xs ys

absorb_log-stamp :
    (now : ℕ) (w : Surface) (cs : List Call) → absorb_log w (stamp now cs) ≡ absorb_all now w cs
unfolding absorb_log absorb_all
absorb_log-stamp now w [] = refl
absorb_log-stamp now w (c ∷ cs) = absorb_log-stamp now (absorb now w c) cs

abbrev pub is_untimed : MachineInput → Bool
is_untimed (MachineInput.timer id) = false
is_untimed _ = true

fire_untimed : (i : MachineInput) (w : Surface) → is_untimed i ≡ true → fire i w ≡ w
unfolding fire
fire_untimed (MachineInput.timer id) w h = ground arith
fire_untimed (MachineInput.trigger e) w h = refl
fire_untimed _ w h = refl

pub all-append :
    (xs ys : List MachineInput)
    → all is_untimed xs ≡ true
    → all is_untimed ys ≡ true
    → all is_untimed (xs ++ ys) ≡ true
all-append [] ys h k = k
all-append (x ∷ xs) ys h k = ground (arith, all-append xs ys)

-- The sum of a measure over the inputs of a queue.
abbrev pub weight : (MachineInput → ℕ) → List MachineInput → ℕ
weight mu [] = 0
weight mu (i ∷ is) = mu i + weight mu is

weight-append :
    (mu : MachineInput → ℕ) (xs ys : List MachineInput)
    → weight mu (xs ++ ys) ≡ weight mu xs + weight mu ys
weight-append mu [] ys = omega arith
weight-append mu (x ∷ xs) ys = omega (arith, weight-append mu xs ys)

module _ (reacts : Call → List MachineInput) (clock : ℕ → ℕ)
    (untimed : (cs : List Call) → all is_untimed (reactions reacts cs) ≡ true)
    (mu : MachineInput → ℕ)
    (falls : (r : Runtime) (i : MachineInput) (now : ℕ)
      → weight mu (reactions reacts (step r i now).1) < mu i) where
  abbrev Drained : Surface → Option (Runtime × List (ℕ × Call)) → Type 0
  Drained w out =
      (r : Runtime) × (log : List (ℕ × Call)) × (out ≡ some (r, log))
      × Shows (absorb_log w log) r.state

  prepend-Drained :
      (w : Surface) (now : ℕ) (cs : List Call) (out : Option (Runtime × List (ℕ × Call)))
      → Drained (absorb_all now w cs) out
      → Drained w (logged reacts clock (stamp now cs) out)
  prepend-Drained w now cs out (r, log, e, h) = (
    r,
    stamp now cs ++ log,
    rw e refl,
    rw (absorb_log-append w (stamp now cs) log, absorb_log-stamp now w cs) h,
  )

  drain_from-Drained :
      (fuel : ℕ) (queue : List MachineInput) (r : Runtime) (k : ℕ) (w : Surface)
      → weight mu queue < fuel
      → all is_untimed queue ≡ true
      → Shows w r.state
      → Drained w (drain_from reacts clock fuel queue r k)
  unfolding drain_from round absorb_log
  drain_from-Drained zero queue r k w m u h = absurd (omega arith)
  drain_from-Drained (suc fuel) [] r k w m u h = (r, [], refl, h)
  drain_from-Drained (suc fuel) (i ∷ rest) r k w m u h =
      let now = clock k in
      let (r', calls) = step (record r { queue = rest }) i now in
      let more = reactions reacts calls in
      let shown =
        subst (λ v. Shows (absorb_all now v calls) r'.state) (fire_untimed i w (ground arith))
          (step-Shows (record r { queue = rest }) i now w h) in
      prepend-Drained w now calls _ (
        drain_from-Drained fuel (rest ++ more) (round reacts clock k r i rest).0 (suc k)
          (absorb_all now w calls)
          (omega (arith, falls (record r { queue = rest }) i now, weight-append mu rest more))
          (all-append rest more (ground arith) (untimed calls)) shown)

  drain_first-Drained :
      (fuel k : ℕ) (r : Runtime) (i : MachineInput) (w : Surface)
      → mu i < fuel
      → Shows w r.state
      → Drained (fire i w) (drain_from reacts clock fuel (i ∷ []) r k)
  unfolding drain_from round
  drain_first-Drained zero k r i w m h = absurd (omega arith)
  drain_first-Drained (suc fuel) k r i w m h =
      let now = clock k in
      let (r', calls) = step (record r { queue = [] }) i now in
      prepend-Drained (fire i w) now calls _ (
        drain_from-Drained fuel (reactions reacts calls) (round reacts clock k r i []).0 (suc k)
          (absorb_all now (fire i w) calls) (omega (arith, falls (record r { queue = [] }) i now))
          (untimed calls) (step-Shows (record r { queue = [] }) i now w h))

  -- An input, a timer's included, is dispatched to a runtime that is not disposed and idle, with an
  -- empty queue, and whose sinks show its state; its callees dispatch further inputs, no timers, and
  -- of a measure that falls. With fuel above the measure `dispatch` returns. It has stepped on that
  -- input and then on all that the callees dispatched in the course of the log, those and no others,
  -- each once and in the order in which they were dispatched: state and log are those of these steps
  -- one after another. And then the sinks show the state, and the runtime is idle with an empty
  -- queue.
  pub dispatch-Shows :
      (fuel k : ℕ) (r : Runtime) (i : MachineInput) (w : Surface)
      → r.disposed ≡ false
      → r.draining ≡ false
      → r.queue ≡ []
      → mu i < fuel
      → Shows w r.state
      → (r' : Runtime) × (log : List (ℕ × Call)) × (dispatch reacts clock fuel r i k
          ≡ some (r', log))
        × (steps clock r.subscribers r.state k (i ∷ dispatched reacts log) ≡ (r'.state, log))
        × Shows (absorb_log (fire i w) log) r'.state
        × (r'.draining ≡ false)
        × (r'.queue ≡ [])
  unfolding dispatch
  dispatch-Shows fuel k r i w alive quiet empty m h =
      let start = λ (q : List MachineInput).
        drain_from reacts clock fuel q (record r { queue = q; draining = true }) k in
      let (r', log, e, shown) =
        drain_first-Drained fuel k (record r { queue = i ∷ []; draining = true }) i w m h in
      let e' : start (r.queue ++ i ∷ []) ≡ some (r', log) =
        ap (λ q. start (q ++ i ∷ [])) empty ∙ e in
      (
        record r' { draining = false; queue = [] },
        log,
        ground (arith, e'),
        drain_from-Handles reacts clock fuel (i ∷ []) (record r { queue = i ∷ []; draining = true })
            k r' log e,
        shown,
        refl,
        refl,
      )
