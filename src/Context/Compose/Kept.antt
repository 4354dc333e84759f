-- ===== src/Context/Compose/Kept.antt =====
-- What stays when `compose` drops sections, and what a composition that drops none looks like.
use text.Mathlib.Text.{◌==◌ as str_eq}
use riki.Prelude.{
  ℕ, suc, ◌+◌, ◌≤◌, ◌<◌, ◌≡◌, ◌⊎◌, inl, inr, refl, ap, sym, ◌∙◌, Bool, true, false, not, ◌&&◌, ◌||◌,
  List, [], ◌∷◌, ◌++◌, String, map, arith, filter, any, all, ◌==◌, any-sort_by, any-append,
}
use riki.Context.Compose.{
  Section, Budget, Placed, number, contains, is_kept, drops_before, drop_order, compose,
}
use riki.Context.Compose.Drops.{places, ids, compose_splits}

abbrev pub is_fixed : Placed → Bool
is_fixed p = not p.1.droppable

-- A droppable section stands at the place.
abbrev droppable_at : List Placed → ℕ → Bool
droppable_at ps n = any (λ p. p.1.droppable && p.0 == n) ps

droppable_at-number : (m n : ℕ) (ss : List Section) → m < n → droppable_at (number n ss) m ≡ false
droppable_at-number m n [] h = refl
droppable_at-number m n (s ∷ ss) h = ground (arith, droppable_at-number m (suc n) ss)

fixed_or_there :
    (n : ℕ) (ss : List Section) (q : ℕ → Bool)
    → ((m : ℕ) → n ≤ m → q m ≡ droppable_at (number n ss) m)
    → all (λ p. p.1.droppable || not (q p.0)) (number n ss) ≡ true
fixed_or_there n [] q h = refl
fixed_or_there n (s ∷ ss) q h =
    let later : (m : ℕ) → suc n ≤ m → q m ≡ droppable_at (number (suc n) ss) m =
      λ m le. h m (omega arith) ∙ not_here m le in
    ground (
      arith,
      h n (omega arith),
      droppable_at-number n (suc n) ss (omega arith),
      fixed_or_there (suc n) ss q later,
    )
  where
    not_here :
        (m : ℕ)
        → suc n ≤ m
        → droppable_at (number n (s ∷ ss)) m ≡ droppable_at (number (suc n) ss) m
    not_here m le = ground arith

contains-places : (n : ℕ) (ps : List Placed) → contains (places ps) n ≡ any (λ p. p.0 == n) ps
contains-places n [] = refl
contains-places n (p ∷ ps) = ground (arith, contains-places n ps)

any-filter_droppable :
    (n : ℕ) (ps : List Placed)
    → any (λ p. p.0 == n) (filter (λ p. p.1.droppable) ps) ≡ droppable_at ps n
any-filter_droppable n [] = refl
any-filter_droppable n (p ∷ ps) = ground (arith, any-filter_droppable n ps)

filter_within :
    (gone : List ℕ) (ps : List Placed)
    → all (λ p. p.1.droppable || not (contains gone p.0)) ps ≡ true
    → filter is_fixed (filter (is_kept gone) ps) ≡ filter is_fixed ps
filter_within gone [] h = refl
filter_within gone (p ∷ ps) h = ground (arith, filter_within gone ps)

all-weaken :
    (gone more : List ℕ) (ps : List Placed)
    → ((n : ℕ) → contains gone n ≡ true → contains more n ≡ true)
    → all (λ p. p.1.droppable || not (contains more p.0)) ps ≡ true
    → all (λ p. p.1.droppable || not (contains gone p.0)) ps ≡ true
all-weaken gone more [] sub h = refl
all-weaken gone more (p ∷ ps) sub h = ground (arith, all-weaken gone more ps sub, sub p.0)

module _ (separator_cost : ℕ) (budget : Budget) where
  -- Under any budget, every section that is not droppable is kept, in its place among the others:
  -- the sections that the text is made of have the same ones as the input, in the same order.
  pub compose_keeps_fixed :
      (sections : List Section)
      → (kept : List Placed) × ((compose separator_cost budget sections).text
          ≡ map (λ p. p.1.line) kept)
        × (filter is_fixed kept ≡ filter is_fixed (number 0 sections))
  compose_keeps_fixed sections =
      let placed = number 0 sections in
      let (dropped, left, split, asc, o, over, fits, text, tokens) =
        compose_splits separator_cost budget sections in
      let order = drop_order placed in
      let at_order : (n : ℕ) → contains (places order) n ≡ droppable_at placed n = λ n.
        contains-places n order
        ∙ any-sort_by drops_before (λ p. p.0 == n) (filter (λ p. p.1.droppable) placed)
        ∙ any-filter_droppable n placed in
      let sub : (n : ℕ) → contains (places dropped) n ≡ true → contains (places order) n ≡ true =
        λ n h. contains_more n dropped left order split h in
      let kept = filter (is_kept (places dropped)) placed in
      (
        kept,
        text,
        filter_within (places dropped) placed (
            all-weaken (places dropped) (places order) placed sub
              (fixed_or_there 0 sections (contains (places order)) (λ m le. at_order m))),
      )
    where
      contains_more :
          (n : ℕ) (dropped left order : List Placed)
          → order ≡ dropped ++ left
          → contains (places dropped) n ≡ true
          → contains (places order) n ≡ true
      contains_more n dropped left order e h =
          contains-places n order
          ∙ ap (any (λ p. p.0 == n)) e
          ∙ any-append (λ p. p.0 == n) dropped left
          ∙ ap (λ b. b || any (λ p. p.0 == n) left) (sym (contains-places n dropped) ∙ h)

-- A droppable section has the id.
abbrev pub droppable_named : List Section → String → Bool
droppable_named sections id = any (λ s. s.droppable && str_eq s.id id) sections

any-ids :
    (id : String) (ps : List Placed)
    → any (λ x. str_eq x id) (ids ps) ≡ any (λ p. str_eq p.1.id id) ps
any-ids id [] = refl
any-ids id (p ∷ ps) = ground (arith, any-ids id ps)

named-filter :
    (id : String) (n : ℕ) (ss : List Section)
    → any (λ p. str_eq p.1.id id) (filter (λ p. p.1.droppable) (number n ss))
      ≡ droppable_named ss id
named-filter id n [] = refl
named-filter id n (s ∷ ss) = ground (arith, named-filter id (suc n) ss)

any-droppable :
    (n : ℕ) (ss : List Section)
    → any (λ p. true) (filter (λ p. p.1.droppable) (number n ss)) ≡ any (λ s. s.droppable) ss
any-droppable n [] = refl
any-droppable n (s ∷ ss) = ground (arith, any-droppable (suc n) ss)

lines-number :
    (n : ℕ) (ss : List Section)
    → map (λ p. p.1.line) (filter (is_kept []) (number n ss)) ≡ map (λ s. s.line) ss
lines-number n [] = refl
lines-number n (s ∷ ss) = ap (λ ls. s.line ∷ ls) (lines-number (suc n) ss)

ids-nil : (ps : List Placed) → ids ps ≡ [] → ps ≡ []
ids-nil [] e = refl
ids-nil (p ∷ ps) e = cc

module _ (separator_cost : ℕ) (budget : Budget) where
  -- Only droppable sections are omitted.
  pub omitted-droppable :
      (sections : List Section) (id : String)
      → any (λ x. str_eq x id) (compose separator_cost budget sections).omitted ≡ true
      → droppable_named sections id ≡ true
  omitted-droppable sections id h =
      let (dropped, left, split, asc, o, over, fits, text, tokens) =
        compose_splits separator_cost budget sections in
      let order = drop_order (number 0 sections) in
      let whole : any (λ p. str_eq p.1.id id) order ≡ droppable_named sections id =
        any-sort_by drops_before (λ p. str_eq p.1.id id)
          (filter (λ p. p.1.droppable) (number 0 sections))
        ∙ named-filter id 0 sections in
      let part : any (λ p. str_eq p.1.id id) dropped ≡ true =
        sym (any-ids id dropped) ∙ ap (any (λ x. str_eq x id)) (sym o) ∙ h in
      let prefix : any (λ p. str_eq p.1.id id) order ≡ true =
        ap (any (λ p. str_eq p.1.id id)) split
        ∙ any-append (λ p. str_eq p.1.id id) dropped left
        ∙ ap (λ b. b || any (λ p. str_eq p.1.id id) left) part in
      sym whole ∙ prefix

  -- A composition that omits nothing has every line, and fits unless nothing could be dropped.
  pub omitted-nil :
      (sections : List Section)
      → (compose separator_cost budget sections).omitted ≡ []
      → let out = compose separator_cost budget sections in
        (out.text ≡ map (λ s. s.line) sections)
        × ((out.tokens + budget.spent_tokens ≤ budget.max_tokens)
            ⊎ (any (λ s. s.droppable) sections ≡ false))
  omitted-nil sections h =
      let (dropped, left, split, asc, o, over, fits, text, tokens) =
        compose_splits separator_cost budget sections in
      let placed = number 0 sections in
      let none_dropped : dropped ≡ [] = ids-nil dropped (sym o ∙ h) in
      (
        text
            ∙ ap (λ ps. map (λ p. p.1.line) (filter (is_kept (places ps)) placed)) none_dropped
            ∙ lines-number 0 sections,
        elim fits [
          | inl le ↦ inl le
          | inr end ↦ inr (
              sym (any-droppable 0 sections)
              ∙ sym (any-sort_by drops_before (λ p. true) (filter (λ p. p.1.droppable) placed))
              ∙ ap (any (λ p. true)) (split ∙ ap (λ ps. ps ++ left) none_dropped ∙ end))
        ],
      )
