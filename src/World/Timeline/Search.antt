-- ===== src/World/Timeline/Search.antt =====
-- `lastWhere`: the binary search against a walk over all entries.
use riki.Prelude.{
  ℕ, zero, suc, ◌+◌, ◌-◌, ◌/◌, ◌≤◌, ◌<◌, ◌≡◌, inl, inr, refl, ◌∙◌, ap, sym, Bool, true, false, List,
  [], ◌∷◌, Option, none, some, arith, ltb, length, filter, Bool-cases, Option-cases,
}
use riki.World.Timeline.{get_elem?, last_of, on_entry, last_where_loop, last_where}

pub get_elem?-past {ℓ} : {A : Type ℓ} (xs : List A) (i : ℕ) → length xs ≤ i → get_elem? xs i ≡ none
get_elem?-past [] i h = refl
get_elem?-past (x ∷ xs) zero h = absurd (omega arith)
get_elem?-past (x ∷ xs) (suc i) h = get_elem?-past xs i (omega arith)

pub get_elem?-none {ℓ} :
    {A : Type ℓ} (xs : List A) (i j : ℕ) → i ≤ j → get_elem? xs i ≡ none → get_elem? xs j ≡ none
get_elem?-none [] i j h e = refl
get_elem?-none (x ∷ xs) zero j h e = absurd (cc)
get_elem?-none (x ∷ xs) (suc i) zero h e = absurd (omega arith)
get_elem?-none (x ∷ xs) (suc i) (suc j) h e = get_elem?-none xs i j (omega arith) e

pub get_elem?-within {ℓ} :
    {A : Type ℓ} (xs : List A) (i : ℕ) → i < length xs → (x : A) × (get_elem? xs i ≡ some x)
get_elem?-within [] i h = absurd (omega arith)
get_elem?-within (x ∷ xs) zero h = (x, refl)
get_elem?-within (x ∷ xs) (suc i) h = get_elem?-within xs i (omega arith)

abbrev pub middle : ℕ → ℕ → ℕ
middle low end = (low + end - 1) / 2

pub middle_in : (low end : ℕ) → low < end → low ≤ middle low end
middle_in low end h = omega arith

pub middle_below : (low end : ℕ) → low < end → middle low end < end
middle_below low end h = omega arith

module _ {ℓ} {A : Type ℓ} (holds : A → Bool) where
  -- Where the predicate holds, it holds at all earlier entries.
  abbrev pub Monotone : List A → Type 0
  Monotone entries =
      (i j : ℕ)
      → i ≤ j
      → on_entry holds (get_elem? entries j) ≡ true
      → on_entry holds (get_elem? entries i) ≡ true

  -- The entry before an index that splits the list where the predicate stops holding.
  abbrev pub before : List A → ℕ → Option A
  before entries zero = none
  before entries (suc i) = get_elem? entries i

  abbrev pub Splits : List A → ℕ → Type 0
  Splits entries k =
      (k ≤ length entries)
      × ((i : ℕ) → i < k → on_entry holds (get_elem? entries i) ≡ true)
      × ((i : ℕ) → k ≤ i → on_entry holds (get_elem? entries i) ≡ false)

  pub last_of-filter :
      (entries : List A) (x : A)
      → last_of (filter holds entries) ≡ some x
      → (i : ℕ) × (get_elem? entries i ≡ some x) × (holds x ≡ true)
  last_of-filter [] x e = absurd (cc)
  last_of-filter (y ∷ ys) x e = elim (Option-cases (last_of (filter holds ys))) [
    | inr (z, f) ↦
        let (i, found, t) = last_of-filter ys z f in
        let same_ : z ≡ x = ground (arith, e, f) in
        (suc i, found ∙ ap some same_, ground (arith, t, same_))
    | inl f ↦ (0, ground (arith, e, f), ground (arith, e, f))
  ]

  none_hold :
      (entries : List A)
      → ((i : ℕ) → on_entry holds (get_elem? entries i) ≡ false)
      → filter holds entries ≡ []
  none_hold [] h = refl
  none_hold (x ∷ xs) h = ground (arith, h 0, none_hold xs (λ i. h (suc i)))

  pub Splits-last_of :
      (entries : List A) (k : ℕ)
      → Splits entries k
      → last_of (filter holds entries) ≡ before entries k
  Splits-last_of entries zero (fits, below, above) =
      rw (none_hold entries (λ i. above i (omega arith))) refl
  Splits-last_of [] (suc k) (fits, below, above) = absurd (omega arith)
  Splits-last_of (x ∷ xs) (suc zero) (fits, below, above) =
      ground (arith, below 0 (omega arith), none_hold xs (λ i. above (suc i) (omega arith)))
  Splits-last_of (x ∷ xs) (suc (suc k)) (fits, below, above) =
      let rest =
        Splits-last_of xs (suc k)
          (omega arith, (λ i h. below (suc i) (omega arith)), λ i h. above (suc i) (omega arith)) in
      let here = below 0 (omega arith) in
      let there = below (suc k) (omega arith) in
      elim (Option-cases (get_elem? xs k)) [
        | inl e ↦ absurd (ground (arith, e, there))
        | inr (y, e) ↦ ground (arith, e, here, rest)
      ]

  module _ (entries : List A) where
    step_stop :
        (fuel low end : ℕ) (found : Option A)
        → ltb low end ≡ false
        → last_where_loop holds entries (suc fuel) low end found ≡ some found
    unfolding last_where_loop
    step_stop fuel low end found h = rw (last_where_loop, h) refl

    pub step_right :
        (fuel low end : ℕ) (found : Option A)
        → ltb low end ≡ true
        → on_entry holds (get_elem? entries (middle low end)) ≡ true
        → last_where_loop holds entries (suc fuel) low end found
          ≡ last_where_loop holds entries fuel
              (middle low end + 1)
              end
              (get_elem? entries (middle low end))
    unfolding last_where_loop
    step_right fuel low end found h t = rw (last_where_loop, h, t) refl

    pub step_left :
        (fuel low end : ℕ) (found : Option A)
        → ltb low end ≡ true
        → on_entry holds (get_elem? entries (middle low end)) ≡ false
        → last_where_loop holds entries (suc fuel) low end found
          ≡ last_where_loop holds entries fuel low (middle low end) found
    unfolding last_where_loop
    step_left fuel low end found h t = rw (last_where_loop, h, t) refl

  module _ (entries : List A) (mono : Monotone entries) where
    -- What the loop keeps: everything below `low` holds, nothing from `end` on does.
    record Inv (low end : ℕ) (found : Option A) : Type ℓ where
      ordered : low ≤ end
      inside : end ≤ length entries
      below : (i : ℕ) → i < low → on_entry holds (get_elem? entries i) ≡ true
      above : (i : ℕ) → end ≤ i → on_entry holds (get_elem? entries i) ≡ false
      is_last : found ≡ before entries low

    right-Inv :
        (low end : ℕ) (found : Option A)
        → ltb low end ≡ true
        → on_entry holds (get_elem? entries (middle low end)) ≡ true
        → Inv low end found
        → Inv (middle low end + 1) end (get_elem? entries (middle low end))
    right-Inv low end found h t inv = record {
      ordered = ground (arith, h, middle_below low end);
      inside = inv.inside;
      below = λ i p. mono i (middle low end) (omega arith) t;
      above = inv.above;
      is_last = ground arith;
    }

    left-Inv :
        (low end : ℕ) (found : Option A)
        → ltb low end ≡ true
        → on_entry holds (get_elem? entries (middle low end)) ≡ false
        → Inv low end found
        → Inv low (middle low end) found
    left-Inv low end found h t inv = record {
      ordered = ground (arith, h, middle_in low end);
      inside = ground (arith, h, middle_below low end, inv.inside);
      below = inv.below;
      above = λ i p. ground (arith, t, mono (middle low end) i p);
      is_last = inv.is_last;
    }

    loop_exact :
        (fuel low end : ℕ) (found : Option A)
        → end < low + fuel
        → Inv low end found
        → last_where_loop holds entries fuel low end found ≡ some (last_of (filter holds entries))
    loop_exact zero low end found enough inv = absurd (omega (arith, inv.ordered))
    loop_exact (suc fuel) low end found enough inv = elim (Bool-cases (ltb low end)) [
      | inl h ↦ elim (Bool-cases (on_entry holds (get_elem? entries (middle low end)))) [
        | inl t ↦
            step_right entries fuel low end found h t
            ∙ loop_exact fuel (middle low end + 1) end (get_elem? entries (middle low end))
                (ground (arith, middle_in low end, h)) (right-Inv low end found h t inv)
        | inr t ↦
            step_left entries fuel low end found h t
            ∙ loop_exact fuel low (middle low end) found (ground (arith, middle_below low end, h))
                (left-Inv low end found h t inv)
      ]
      | inr h ↦
          let same_ : low ≡ end = ground (arith, h, inv.ordered) in
          let split : Splits entries low =
            (ground (arith, same_, inv.inside), inv.below, λ i p. inv.above i (omega (arith))) in
          step_stop entries fuel low end found h
          ∙ ap some (inv.is_last ∙ sym (Splits-last_of entries low split))
    ]

    -- On a predicate that holds up to some entry and for none after it, `lastWhere` returns within
    -- its fuel, and gives the last entry for which the predicate holds, or none if there is none.
    pub last_where_exact : last_where holds entries ≡ some (last_of (filter holds entries))
    unfolding last_where
    last_where_exact =
        loop_exact (length entries + 1) 0 (length entries) none (omega arith) (record {
          ordered = omega arith;
          inside = omega arith;
          below = λ i p. absurd (omega arith);
          above = λ i p. rw (get_elem?-past entries i p) refl;
          is_last = refl;
        })
