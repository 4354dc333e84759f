-- ===== src/Sources/Bus/Queue.antt =====
-- What `publish` does to the queue while a delivery is under way.
use riki.Prelude.{
  ℕ, suc, ◌+◌, ◌≤◌, ◌≡◌, inl, inr, refl, ◌∙◌, ap, sym, Bool, true, not, ◌&&◌, List, [], ◌∷◌, ◌++◌,
  Option, none, some, arith, leb, length, filter, count, Bool-cases, Option-cases, same_self,
}
use riki.Sources.Bus.{
  ObservationKind, gsi_payload, log_event, cv_detections, api_enrichment, ObservationKind-discrete,
  Observation, sheddable, is_shed, ObservationBus, bump, note_seq, shed_first, shed_and_add,
  enqueue,
}

abbrev pub essential : Observation → Bool
essential o = not (is_shed o)

abbrev pub weight_of : (Observation → ℕ) → List Observation → ℕ
weight_of weight [] = 0
weight_of weight (o ∷ os) = weight o + weight_of weight os

-- The first sheddable entry leaves, and nothing else does.
record Shed (weight : Observation → ℕ) (q : List Observation) (shed : Observation)
    (rest : List Observation) : Type 0 where
  sheds : is_shed shed ≡ true
  keeps : filter essential rest ≡ filter essential q
  counts : count is_shed q ≡ suc (count is_shed rest)
  shorter : suc (length rest) ≡ length q
  lighter : weight_of weight rest ≤ weight_of weight q

shed_first-Shed :
    (weight : Observation → ℕ) (q : List Observation) (shed : Observation) (rest : List Observation)
    → shed_first q ≡ some (shed, rest)
    → Shed weight q shed rest
unfolding shed_first
shed_first-Shed weight [] shed rest e = absurd (cc)
shed_first-Shed weight (x ∷ xs) shed rest e = elim (Bool-cases (is_shed x)) [
  | inl t ↦
      let pair : ◌≡◌ {A = Option (Observation × List Observation)} (some (x, xs))
          (some (shed, rest)) =
        rw t at e in
      let one : x ≡ shed = cc in
      let two : xs ≡ rest = cc in
      rw (sym one, sym two)
        (record {
          sheds = t;
          keeps = ground (arith, t);
          counts = ground (arith, t);
          shorter = refl;
          lighter = omega arith;
        })
  | inr t ↦ elim (Option-cases (shed_first xs)) [
    | inl n ↦ absurd (ground (arith, e, t, n))
    | inr ((y, ys), f) ↦
        let s = shed_first-Shed weight xs y ys f in
        let pair : ◌≡◌ {A = Option (Observation × List Observation)} (some (y, x ∷ ys))
            (some (shed, rest)) =
          rw (t, f) at e in
        let one : y ≡ shed = cc in
        let two : ◌≡◌ {A = List Observation} (x ∷ ys) rest = cc in
        rw (sym one, sym two)
          (record {
            sheds = s.sheds;
            keeps = ground (arith, t, s.keeps);
            counts = ground (arith, t, s.counts);
            shorter = ap suc s.shorter;
            lighter = omega (arith, s.lighter);
          })
  ]
]

shed_kind : (k : ObservationKind) → sheddable k ≡ true → k ≡ cv_detections
shed_kind cv_detections h = refl
shed_kind gsi_payload h = absurd (cc)
shed_kind log_event h = absurd (cc)
shed_kind api_enrichment h = absurd (cc)

bump-shed :
    (counts : ObservationKind → ℕ) (k : ObservationKind)
    → sheddable k ≡ true
    → bump counts k cv_detections ≡ suc (counts cv_detections)
bump-shed counts k h = rw (shed_kind k h, same_self ObservationKind-discrete cv_detections) refl

-- What a call of `publish` changes, of what is queued and what is counted as dropped.
pub record Took (weight : Observation → ℕ) (b : ObservationBus) (o : Observation)
    (c : ObservationBus) : Type 0 where
  pub hears : c.heard ≡ b.heard ++ o ∷ []
  pub delivers : c.delivered ≡ b.delivered
  pub drains : c.draining ≡ b.draining
  pub order : filter essential c.queue ≡ filter essential (b.queue ++ o ∷ [])
  pub accounts :
      count is_shed c.queue + c.dropped cv_detections
      ≡ count is_shed (b.queue ++ o ∷ []) + b.dropped cv_detections
  pub heavier : weight_of weight c.queue ≤ weight_of weight b.queue + weight o

weight-append :
    (weight : Observation → ℕ) (xs ys : List Observation)
    → weight_of weight (xs ++ ys) ≡ weight_of weight xs + weight_of weight ys
weight-append weight [] ys = omega arith
weight-append weight (x ∷ xs) ys = omega (arith, weight-append weight xs ys)

essential-shed :
    (xs : List Observation) (o : Observation)
    → is_shed o ≡ true
    → filter essential (xs ++ o ∷ []) ≡ filter essential xs
essential-shed [] o t = ground (arith, t)
essential-shed (x ∷ xs) o t = ground (arith, essential-shed xs o t)

count-shed :
    (xs : List Observation) (o : Observation)
    → is_shed o ≡ true
    → count is_shed (xs ++ o ∷ []) ≡ suc (count is_shed xs)
count-shed [] o t = ground (arith, t)
count-shed (x ∷ xs) o t = ground (arith, count-shed xs o t)

module _ (weight : Observation → ℕ) where
  weight-one : (o : Observation) → weight_of weight (o ∷ []) ≡ weight o
  weight-one o = omega arith

  noted : ObservationBus → Observation → ObservationBus
  noted b o = note_seq (record b { heard = b.heard ++ o ∷ [] }) o

  shed-Took :
      (b : ObservationBus) (o : Observation) (found : Option (Observation × List Observation))
      → is_shed o ≡ true
      → shed_first b.queue ≡ found
      → Took weight b o (shed_and_add (noted b o) o found)
  unfolding noted note_seq
  shed-Took b o none t e = record {
    hears = refl;
    delivers = refl;
    drains = refl;
    order = sym (essential-shed b.queue o t);
    accounts = omega (arith, bump-shed b.dropped o.kind t, count-shed b.queue o t);
    heavier = omega arith;
  }
  shed-Took b o (some (shed, rest)) t e =
      let s = shed_first-Shed weight b.queue shed rest e in
      record {
        hears = refl;
        delivers = refl;
        drains = refl;
        order = essential-shed rest o t ∙ s.keeps ∙ sym (essential-shed b.queue o t);
        accounts = omega (
          arith,
          bump-shed b.dropped shed.kind s.sheds,
          count-shed b.queue o t,
          count-shed rest o t,
          s.counts,
        );
        heavier = omega (arith, weight-append weight rest (o ∷ []), weight-one o, s.lighter);
      }

  pub enqueue-Took :
      (bound : ℕ) (b : ObservationBus) (o : Observation) → Took weight b o (enqueue bound b o)
  unfolding enqueue note_seq noted
  enqueue-Took bound b o = elim (Bool-cases (leb bound (length b.queue) && is_shed o)) [
    | inl t ↦ rw (enqueue, t) (shed-Took b o (shed_first b.queue) (ground (arith, t)) refl)
    | inr t ↦
        rw (enqueue, t)
          (record {
            hears = refl;
            delivers = refl;
            drains = refl;
            order = refl;
            accounts = refl;
            heavier = omega (arith, weight-append weight b.queue (o ∷ []), weight-one o);
          })
  ]
