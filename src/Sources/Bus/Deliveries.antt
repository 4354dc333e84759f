-- ===== src/Sources/Bus/Deliveries.antt =====
-- The deliveries of the bus, and what is published during them.
use riki.Prelude.{
  ℕ, zero, suc, ◌+◌, ◌≤◌, ◌<◌, ◌≡◌, refl, ◌∙◌, ap, ap₂, sym, true, false, not, List, [], ◌∷◌, ◌++◌,
  none, some, arith, filter, count, filter-append, count-append, append_assoc, append-nil, ◌⊎◌, inl,
  inr, Bool-cases, leb, length, any, ◌&&◌,
}
use riki.Sources.Bus.{
  cv_detections, Observation, is_shed, ObservationBus, enqueue, enqueue_all, Subscribers, settle,
  returned, deliver, drain, drain_unless, publish, note_seq, shed_first,
}
use riki.Sources.Bus.Queue.{essential, weight_of, Took, enqueue-Took}

-- The observations that are not detections are delivered or queued, in the order in which they were
-- published, and each of the detections is delivered, queued or counted as dropped.
pub record Balanced (b : ObservationBus) : Type 0 where
  pub in_order : filter essential b.heard ≡ filter essential (b.delivered ++ b.queue)
  pub accounted :
      count is_shed b.heard ≡ count is_shed (b.delivered ++ b.queue) + b.dropped cv_detections

Took-Balanced :
    (weight : Observation → ℕ) (b c : ObservationBus) (o : Observation)
    → Took weight b o c
    → Balanced b
    → Balanced c
Took-Balanced weight b c o took balanced = record {
  in_order =
      ap (filter essential) took.hears
      ∙ filter-append essential b.heard (o ∷ [])
      ∙ ap (λ xs. xs ++ filter essential (o ∷ [])) balanced.in_order
      ∙ sym (filter-append essential (b.delivered ++ b.queue) (o ∷ []))
      ∙ ap (filter essential) (append_assoc b.delivered b.queue (o ∷ []))
      ∙ filter-append essential b.delivered (b.queue ++ o ∷ [])
      ∙ ap (λ xs. filter essential b.delivered ++ xs) (sym took.order)
      ∙ sym (filter-append essential b.delivered c.queue)
      ∙ ap (λ xs. filter essential (xs ++ c.queue)) (sym took.delivers);
  accounted =
      ap (count is_shed) took.hears
      ∙ omega (
        arith,
        count-append is_shed b.heard (o ∷ []),
        balanced.accounted,
        count-append is_shed b.delivered b.queue,
        count-append is_shed b.queue (o ∷ []),
        count-append is_shed b.delivered c.queue,
        took.accounts,
      )
      ∙ ap (λ xs. count is_shed (xs ++ c.queue) + c.dropped cv_detections) (sym took.delivers);
}

-- What the bus heard before, it heard still.
abbrev pub Later : ObservationBus → ObservationBus → Type 0
Later b c = (more : List Observation) × (c.heard ≡ b.heard ++ more)

Later-trans : (a b c : ObservationBus) → Later a b → Later b c → Later a c
Later-trans a b c (xs, e) (ys, f) =
    (xs ++ ys, f ∙ ap (λ zs. zs ++ ys) e ∙ append_assoc a.heard xs ys)

-- Between deliveries nothing is queued.
pub record Idle (b : ObservationBus) : Type 0 where
  pub balanced : Balanced b
  pub empty : b.queue ≡ []
  pub resting : b.draining ≡ false

module _ (bound : ℕ) (subscribers : Subscribers) (weight : Observation → ℕ) where
  enqueue_all-Balanced :
      (b : ObservationBus) (os : List Observation)
      → Balanced b
      → Balanced (enqueue_all bound b os)
        × Later b (enqueue_all bound b os)
        × (weight_of weight (enqueue_all bound b os).queue
            ≤ weight_of weight b.queue + weight_of weight os)
  unfolding enqueue_all
  enqueue_all-Balanced b [] balanced = (balanced, ([], sym (append-nil b.heard)), omega arith)
  enqueue_all-Balanced b (o ∷ os) balanced =
      let c = enqueue bound b o in
      let took = enqueue-Took weight bound b o in
      let (balanced', later, light) =
        enqueue_all-Balanced c os (Took-Balanced weight b c o took balanced) in
      (
        balanced',
        Later-trans b c (enqueue_all bound c os) (o ∷ [], took.hears) later,
        omega (arith, light, took.heavier),
      )

  deliver-Balanced :
      (b : ObservationBus) (o : Observation) (rest : List Observation)
      → b.queue ≡ o ∷ rest
      → Balanced b
      → Balanced (deliver bound subscribers b o rest)
        × Later b (deliver bound subscribers b o rest)
        × (weight_of weight (deliver bound subscribers b o rest).queue
            ≤ weight_of weight rest + weight_of weight (subscribers b.delivered o).0)
  deliver-Balanced b o rest e balanced =
      let shifted = record b { queue = rest; delivered = b.delivered ++ o ∷ [] } in
      let same_ : (b.delivered ++ o ∷ []) ++ rest ≡ b.delivered ++ b.queue =
        append_assoc b.delivered (o ∷ []) rest ∙ ap (λ xs. b.delivered ++ xs) (sym e) in
      enqueue_all-Balanced shifted (subscribers b.delivered o).0 (record {
        in_order = balanced.in_order ∙ ap (filter essential) (sym same_);
        accounted =
            balanced.accounted ∙ ap (λ xs. count is_shed xs + b.dropped cv_detections) (sym same_);
      })

  -- No subscriber throws, and what one publishes during a delivery weighs less than what it got.
  abbrev pub Calm : Type 0
  Calm =
      (delivered : List Observation) (o : Observation)
      → (weight_of weight (subscribers delivered o).0 < weight o)
        × ((subscribers delivered o).1 ≡ false)

  drain_stop :
      (fuel : ℕ) (b : ObservationBus)
      → b.queue ≡ []
      → drain bound subscribers (suc fuel) b ≡ some (returned (settle b))
  unfolding drain
  drain_stop fuel b e = rw (drain, e) refl

  drain_next :
      (fuel : ℕ) (b : ObservationBus) (o : Observation) (rest : List Observation)
      → b.queue ≡ o ∷ rest
      → (subscribers b.delivered o).1 ≡ false
      → drain bound subscribers (suc fuel) b
        ≡ drain bound subscribers fuel (deliver bound subscribers b o rest)
  unfolding drain
  drain_next fuel b o rest e t = rw (drain, e, t) refl

  settle-Idle : (b : ObservationBus) → b.queue ≡ [] → Balanced b → Idle (settle b)
  settle-Idle b e balanced = record {
    balanced = record {
      in_order = balanced.in_order ∙ ap (λ xs. filter essential (b.delivered ++ xs)) e;
      accounted =
          balanced.accounted
          ∙ ap (λ xs. count is_shed (b.delivered ++ xs) + b.dropped cv_detections) e;
    };
    empty = refl;
    resting = refl;
  }

  List-cases :
      (xs : List Observation)
      → (xs ≡ []) ⊎ ((x : Observation) × (ys : List Observation) × (xs ≡ x ∷ ys))
  List-cases [] = inl refl
  List-cases (x ∷ xs) = inr (x, xs, refl)

  drain-Idle :
      Calm
      → (fuel : ℕ) (b : ObservationBus) → weight_of weight b.queue < fuel
      → Balanced b
      → (c : ObservationBus) × (drain bound subscribers fuel b ≡ some (returned c))
        × Idle c
        × Later b c
  drain-Idle calm zero b enough balanced = absurd (omega arith)
  drain-Idle calm (suc fuel) b enough balanced = elim (List-cases b.queue) [
    | inl e ↦
        (settle b, drain_stop fuel b e, settle-Idle b e balanced, ([], sym (append-nil b.heard)))
    | inr (o, rest, e) ↦
        let (light, quiet) = calm b.delivered o in
        let next = deliver bound subscribers b o rest in
        let (balanced', later, lighter) = deliver-Balanced b o rest e balanced in
        let whole : weight_of weight b.queue ≡ weight o + weight_of weight rest =
          ap (weight_of weight) e in
        let (c, ends, idle, after) =
          drain-Idle calm fuel next (omega (arith, enough, whole, light, lighter)) balanced' in
        (c, drain_next fuel b o rest e quiet ∙ ends, idle, Later-trans b next c later after)
  ]

  early_empty :
      (b : ObservationBus) (o : Observation)
      → b.queue ≡ []
      → leb bound (length b.queue) ≡ true
      → is_shed o ≡ true
      → (enqueue bound b o).queue ≡ []
  unfolding enqueue note_seq shed_first
  early_empty b o e full t =
      let none_left : shed_first b.queue ≡ none = ap shed_first e in
      rw (enqueue, full, t, none_left) e

  -- Where no subscriber throws, and fuel is more than the weight of what is published, a call of
  -- `publish` from outside a delivery returns, with nothing left queued, though subscribers publish
  -- more. All that was published so far, the new observation included, is accounted for: what is not a
  -- detection is delivered, in the order in which it was published, and every detection is delivered
  -- or counted as dropped.
  pub publish-Idle :
      Calm
      → (fuel : ℕ) (b : ObservationBus) (o : Observation) → weight o < fuel
      → Idle b
      → (c : ObservationBus) × (publish bound subscribers fuel b o ≡ some (returned c))
        × Idle c
        × Later (record b { heard = b.heard ++ o ∷ [] }) c
  unfolding publish
  publish-Idle calm fuel b o enough idle =
      let c = enqueue bound b o in
      let took = enqueue-Took weight bound b o in
      let balanced = Took-Balanced weight b c o took idle.balanced in
      let none_queued : weight_of weight b.queue ≡ 0 = ap (weight_of weight) idle.empty in
      let draining_ = record c { draining = true } in
      let begun : Balanced draining_ = record {
        in_order = balanced.in_order;
        accounted = balanced.accounted;
      } in
      let new : c.heard ≡ (b.heard ++ o ∷ []) ++ [] =
        took.hears ∙ sym (append-nil (b.heard ++ o ∷ [])) in
      elim (Bool-cases (leb bound (length b.queue) && is_shed o && not (any is_shed b.queue))) [
        | inl t ↦ (
          c,
          ap₂ (λ d early. drain_unless bound subscribers d early fuel c) idle.resting t,
          record {
            balanced = balanced;
            empty = early_empty b o idle.empty (ground (arith, t)) (ground (arith, t));
            resting = took.drains ∙ idle.resting;
          },
          ([], new),
        )
        | inr t ↦
            let (d, ends, done, (more, after)) =
              drain-Idle calm fuel draining_ (omega (arith, enough, took.heavier, none_queued))
                begun in
            (
              d,
              ap₂ (λ d early. drain_unless bound subscribers d early fuel c) idle.resting t ∙ ends,
              done,
              (more, after ∙ ap (λ xs. xs ++ more) took.hears),
            )
      ]
