-- ===== src/Session/Surface/Handled.antt =====
-- Which inputs the dispatch loop of session/runtime.ts handles, and in which order.
use riki.Prelude.{
  ℕ, zero, suc, ◌≡◌, refl, sym, ap, subst, ◌∙◌, false, List, [], ◌∷◌, ◌++◌, Option, none, some,
  arith, append_assoc,
}
use riki.Session.Types.{MachineInput, MachineState}
use riki.Session.Runtime.{Call, Runtime, step, reactions, round, stamp, logged, drain_from}

abbrev pub calls_of : List (ℕ × Call) → List Call
calls_of [] = []
calls_of ((now, c) ∷ log) = c ∷ calls_of log

calls_of-stamp :
    (now : ℕ) (cs : List Call) (log : List (ℕ × Call))
    → calls_of (stamp now cs ++ log) ≡ cs ++ calls_of log
calls_of-stamp now [] log = refl
calls_of-stamp now (c ∷ cs) log = ap (λ ds. c ∷ ds) (calls_of-stamp now cs log)

-- A runtime in a state, with subscribers, that handles nothing else.
abbrev pub standing : List ℕ → MachineState → Runtime
standing subscribers state = record {
  state = state;
  disposed = false;
  draining = false;
  queue = [];
  subscribers = subscribers;
}

module _ (clock : ℕ → ℕ) where
  -- Inputs that are stepped on one after another, the first at tick `k` of the clock: the state after
  -- the last, and the calls of all, each with the time of its step.
  abbrev pub steps : List ℕ → MachineState → ℕ → List MachineInput → MachineState × List (ℕ × Call)
  steps subscribers state k [] = (state, [])
  steps subscribers state k (i ∷ is) =
      let (r, calls) = step (standing subscribers state) i (clock k) in
      let (last, log) = steps subscribers r.state (suc k) is in (last, stamp (clock k) calls ++ log)

module _ (reacts : Call → List MachineInput) where
  -- The inputs that the callees dispatched in the course of a log.
  abbrev pub dispatched : List (ℕ × Call) → List MachineInput
  dispatched log = reactions reacts (calls_of log)

  pub reactions-append :
      (xs ys : List Call) → reactions reacts (xs ++ ys) ≡ reactions reacts xs ++ reactions reacts ys
  unfolding reactions
  reactions-append [] ys = refl
  reactions-append (c ∷ cs) ys =
      ap (λ is. reacts c ++ is) (reactions-append cs ys)
      ∙ sym (append_assoc (reacts c) (reactions reacts cs) (reactions reacts ys))

  dispatched-stamp :
      (now : ℕ) (cs : List Call) (log : List (ℕ × Call))
      → dispatched (stamp now cs ++ log) ≡ reactions reacts cs ++ dispatched log
  dispatched-stamp now cs log =
      ap (reactions reacts) (calls_of-stamp now cs log) ∙ reactions-append cs (calls_of log)

module _ (reacts : Call → List MachineInput) (clock : ℕ → ℕ) where
  -- What the loop has done by its end is to step on what was in the queue, and then on what was
  -- dispatched meanwhile.
  abbrev pub Handles : List MachineInput → Runtime → ℕ → Runtime × List (ℕ × Call) → Type 0
  Handles queue r k (r', log) =
      steps clock r.subscribers r.state k (queue ++ dispatched reacts log) ≡ (r'.state, log)

  logged-inverts :
      (now : ℕ) (cs : List Call) (out : Option (Runtime × List (ℕ × Call))) (r' : Runtime)
      (log : List (ℕ × Call))
      → logged reacts clock (stamp now cs) out ≡ some (r', log)
      → (rest : List (ℕ × Call)) × (out ≡ some (r', rest)) × (log ≡ stamp now cs ++ rest)
  logged-inverts now cs none r' log e = absurd (cc)
  logged-inverts now cs (some (r, rest)) r' log e = (rest, ground (arith, e), ground (arith, e))

  pub drain_from-Handles :
      (fuel : ℕ) (queue : List MachineInput) (r : Runtime) (k : ℕ) (r' : Runtime)
      (log : List (ℕ × Call))
      → drain_from reacts clock fuel queue r k ≡ some (r', log)
      → Handles queue r k (r', log)
  unfolding drain_from round step reactions
  drain_from-Handles zero queue r k r' log e = absurd (cc)
  drain_from-Handles (suc fuel) [] r k r' log e =
      let same_log : [] ≡ log = ground (arith, e) in
      let same_state : r.state ≡ r'.state = ground (arith, e) in
      subst (λ l. Handles [] r k (r', l)) same_log (ap (λ m. (m, [])) same_state)
  drain_from-Handles (suc fuel) (i ∷ rest) r k r' log e =
      let (s, calls) = step (record r { queue = rest }) i (clock k) in
      let more = reactions reacts calls in
      let (later, e', l) = logged-inverts (clock k) calls _ r' log e in
      let rec =
        drain_from-Handles fuel (rest ++ more) (round reacts clock k r i rest).0 (suc k) r' later
          e' in
      let inputs : (i ∷ rest) ++ dispatched reacts log
          ≡ i ∷ ((rest ++ more) ++ dispatched reacts later) =
        ap (λ is. i ∷ (rest ++ is))
          (ap (dispatched reacts) l ∙ dispatched-stamp reacts (clock k) calls later)
        ∙ ap (λ is. i ∷ is) (sym (append_assoc rest more (dispatched reacts later))) in
      ap (steps clock r.subscribers r.state k) inputs
      ∙ ap (λ out. (out.0, stamp (clock k) calls ++ out.1)) rec
      ∙ ap (λ l. (r'.state, l)) (sym l)
