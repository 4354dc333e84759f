-- ===== src/Context/Compose/Drops.antt =====
-- Which sections `compose` drops, and which it never drops.
use riki.Prelude.{
  ℕ, ◌+◌, ◌≤◌, ◌<◌, ◌≡◌, ◌⊎◌, inl, inr, refl, ap, sym, subst, ◌∙◌, true, false, List, [], ◌∷◌, ◌++◌,
  String, map, append_assoc, append-nil, arith, filter, sort_by, insert_by, Bool-cases,
}
use mathlib.Core.List.{Perm}
use mathlib.Core.List.Perm
use riki.Context.Compose.{
  Section, Budget, Placed, number, is_kept, drops_before, drop_order, cost, is_over,
  drop_while_over, compose,
}

-- `p` may be dropped before `q`: its priority is less, or it is the same and `p` stands later.
abbrev pub Before : Placed → Placed → Type 0
Before p q = (p.1.priority < q.1.priority) ⊎ ((p.1.priority ≡ q.1.priority) × (q.0 ≤ p.0))

abbrev pub BeforeAll : Placed → List Placed → Type 0
BeforeAll p [] = Unit {0}
BeforeAll p (q ∷ qs) = Before p q × BeforeAll p qs

-- Each section may be dropped before those that follow.
abbrev pub Ascending : List Placed → Type 0
Ascending [] = Unit {0}
Ascending (p ∷ ps) = BeforeAll p ps × Ascending ps

Before-trans : (p q r : Placed) → Before p q → Before q r → Before p r
Before-trans p q r h k = ground arith

BeforeAll-trans : (p q : Placed) (ps : List Placed) → Before p q → BeforeAll q ps → BeforeAll p ps
BeforeAll-trans p q [] h a = a
BeforeAll-trans p q (r ∷ ps) h a = (Before-trans p q r h a.0, BeforeAll-trans p q ps h a.1)

BeforeAll-insert_by :
    (q p : Placed) (ps : List Placed)
    → Before q p
    → BeforeAll q ps
    → BeforeAll q (insert_by drops_before p ps)
BeforeAll-insert_by q p [] h a = (h, a)
BeforeAll-insert_by q p (r ∷ rs) h a = elim (Bool-cases (drops_before r p)) [
  | inl t ↦ rw t (a.0, BeforeAll-insert_by q p rs h a.1)
  | inr t ↦ rw t (h, a)
]

drops_before-Before : (a b : Placed) → drops_before a b ≡ true → Before a b
drops_before-Before a b h = ground arith

drops_before-after : (a b : Placed) → drops_before a b ≡ false → Before b a
drops_before-after a b h = ground arith

insert_by-Ascending :
    (p : Placed) (ps : List Placed) → Ascending ps → Ascending (insert_by drops_before p ps)
insert_by-Ascending p [] s = (tt, tt)
insert_by-Ascending p (q ∷ qs) s = elim (Bool-cases (drops_before q p)) [
  | inl t ↦
      rw t
        (BeforeAll-insert_by q p qs (drops_before-Before q p t) s.0, insert_by-Ascending p qs s.1)
  | inr t ↦ let le = drops_before-after q p t in rw t ((le, BeforeAll-trans p q qs le s.0), s)
]

sort_by-Ascending : (ps : List Placed) → Ascending (sort_by drops_before ps)
sort_by-Ascending [] = tt
sort_by-Ascending (p ∷ ps) = insert_by-Ascending p (sort_by drops_before ps) (sort_by-Ascending ps)

insert_by-Perm : (p : Placed) (ps : List Placed) → Perm (p ∷ ps) (insert_by drops_before p ps)
insert_by-Perm p [] = Perm.refl (p ∷ [])
insert_by-Perm p (q ∷ qs) = elim (Bool-cases (drops_before q p)) [
  | inl t ↦ rw t (Perm.trans (Perm.swap q p qs) (Perm.cons q (insert_by-Perm p qs)))
  | inr t ↦ rw t (Perm.refl (p ∷ q ∷ qs))
]

sort_by-Perm : (ps : List Placed) → Perm ps (sort_by drops_before ps)
sort_by-Perm [] = Perm.refl []
sort_by-Perm (p ∷ ps) =
    Perm.trans (Perm.cons p (sort_by-Perm ps)) (insert_by-Perm p (sort_by drops_before ps))

abbrev pub places : List Placed → List ℕ
places ps = map (λ p. p.0) ps

abbrev pub ids : List Placed → List String
ids ps = map (λ p. p.1.id) ps

module _ (separator_cost : ℕ) (budget : Budget) where
  -- Before each of the drops the cost was over the budget.
  abbrev pub OverBefore : List Placed → List ℕ → List Placed → Type 0
  OverBefore placed gone [] = Unit {0}
  OverBefore placed gone (p ∷ ps) =
      (is_over separator_cost budget placed gone ≡ true) × OverBefore placed (gone ++ p.0 ∷ []) ps

  drop_while_over_lem :
      (placed droppable : List Placed) (gone : List ℕ) (omitted : List String)
      → let out = drop_while_over separator_cost budget placed droppable gone omitted in
        (dropped left : List Placed) × (droppable ≡ dropped ++ left)
        × (out.0 ≡ gone ++ places dropped)
        × (out.1 ≡ omitted ++ ids dropped)
        × OverBefore placed gone dropped
        × ((is_over separator_cost budget placed out.0 ≡ false) ⊎ (left ≡ []))
  unfolding drop_while_over
  drop_while_over_lem placed [] gone omitted =
      ([], [], refl, sym (append-nil gone), sym (append-nil omitted), tt, inr refl)
  drop_while_over_lem placed (next ∷ droppable) gone omitted =
      elim (Bool-cases (is_over separator_cost budget placed gone)) [
        | inl t ↦
            let gone' = gone ++ next.0 ∷ [] in
            let omitted' = omitted ++ next.1.id ∷ [] in
            let (dropped, left, split, g, o, over, end) =
              drop_while_over_lem placed droppable gone' omitted' in
            rw t (
              next ∷ dropped,
              left,
              ap (λ ps. next ∷ ps) split,
              g ∙ append_assoc gone (next.0 ∷ []) (places dropped),
              o ∙ append_assoc omitted (next.1.id ∷ []) (ids dropped),
              (t, over),
              end,
            )
        | inr t ↦
            rw t (
              [],
              next ∷ droppable,
              refl,
              sym (append-nil gone),
              sym (append-nil omitted),
              tt,
              inl t,
            )
      ]

  pub compose_splits :
      (sections : List Section)
      → let placed = number 0 sections in
        let out = compose separator_cost budget sections in
        (dropped left : List Placed) × (drop_order placed ≡ dropped ++ left)
        × Ascending (dropped ++ left)
        × (out.omitted ≡ ids dropped)
        × OverBefore placed [] dropped
        × ((out.tokens + budget.spent_tokens ≤ budget.max_tokens) ⊎ (left ≡ []))
        × (out.text ≡ map (λ p. p.1.line) (filter (is_kept (places dropped)) placed))
        × (out.tokens ≡ cost separator_cost budget placed (places dropped))
  unfolding compose
  compose_splits sections =
      let placed = number 0 sections in
      let (dropped, left, split, g, o, over, end) =
        drop_while_over_lem placed (drop_order placed) [] [] in
      let fits : (cost separator_cost budget placed
                (drop_while_over separator_cost budget placed (drop_order placed) [] []).0
              + budget.spent_tokens
            ≤ budget.max_tokens)
          ⊎ (left ≡ []) =
        ground (arith, end) in
      (
        dropped,
        left,
        split,
        subst Ascending split (sort_by-Ascending (filter (λ p. p.1.droppable) placed)),
        o,
        over,
        fits,
        ap (λ gone. map (λ p. p.1.line) (filter (is_kept gone) placed)) g,
        ap (cost separator_cost budget placed) g,
      )

  -- `compose` drops as little as it can: the droppable sections, all of them and no others, put in
  -- the order of their priorities, with the later first where these are the same, are what is
  -- dropped and then what is left; what is omitted is what is dropped; before each drop the cost was
  -- over the budget; and in the end the cost fits, or nothing that may be dropped is left. The text
  -- has the lines of what is kept, and the tokens are what these cost.
  pub compose_drops_least :
      (sections : List Section)
      → let placed = number 0 sections in
        let out = compose separator_cost budget sections in
        (dropped left : List Placed) × Perm (filter (λ p. p.1.droppable) placed) (dropped ++ left)
        × Ascending (dropped ++ left)
        × (out.omitted ≡ ids dropped)
        × OverBefore placed [] dropped
        × ((out.tokens + budget.spent_tokens ≤ budget.max_tokens) ⊎ (left ≡ []))
        × (out.text ≡ map (λ p. p.1.line) (filter (is_kept (places dropped)) placed))
        × (out.tokens ≡ cost separator_cost budget placed (places dropped))
  compose_drops_least sections =
      let placed = number 0 sections in
      let droppable = filter (λ p. p.1.droppable) placed in
      let (dropped, left, split, ascending, o, over, fits, text, tokens) =
        compose_splits sections in
      (
        dropped,
        left,
        subst (Perm droppable) split (sort_by-Perm droppable),
        ascending,
        o,
        over,
        fits,
        text,
        tokens,
      )
