-- ===== src/Context/Ladder/Closure.antt =====
-- The closure of a set of drops: it ends, and it is closed.
use text.Mathlib.Text.{◌==◌ as str_eq}
use text.Mathlib.TextEquality.{eq_iff}
use riki.Prelude.{
  ℕ, zero, suc, ◌+◌, ◌≤◌, ◌<◌, ◌≡◌, inl, inr, ◌↔◌, refl, subst, true, false, ◌||◌, List, [], ◌∷◌,
  ◌++◌, some, String, arith, any-append, length, Bool-cases, if◌then◌else◌,
}
use riki.Context.Ladder.{
  LadderEntry, find_entry, drops_with_of, member, push_all, close, all_drops, closure,
}

length-push_all : (xs ps : List String) → length (push_all xs ps) ≡ length xs + length ps
length-push_all [] ps = omega arith
length-push_all (x ∷ xs) ps = omega (arith, length-push_all xs (x ∷ ps))

member-push_all :
    (xs ps : List String) (id : String)
    → member (push_all xs ps) id ≡ (member xs id || member ps id)
member-push_all [] ps id = refl
member-push_all (x ∷ xs) ps id = ground (arith, member-push_all xs (x ∷ ps) id)

-- What the entries that are not expanded yet can still push.
open_drops : List String → List LadderEntry → ℕ
open_drops out [] = 0
open_drops out (e ∷ es) = (if member out e.id then 0 else length e.drops_with) + open_drops out es

open_drops-le : (es : List LadderEntry) → open_drops [] es ≤ all_drops es
unfolding open_drops
open_drops-le [] = omega arith
open_drops-le (e ∷ es) = omega (arith, open_drops-le es)

open_drops-expand :
    (out : List String) (id : String) (es : List LadderEntry)
    → member out id ≡ false
    → open_drops (out ++ id ∷ []) es + length (drops_with_of es id) ≤ open_drops out es
unfolding open_drops drops_with_of find_entry
open_drops-expand out id [] h = omega arith
open_drops-expand out id (e ∷ es) h = ground (
  arith,
  open_drops-expand out id es h,
  any-append (λ x. str_eq x e.id) out (id ∷ []),
  eq_iff id e.id,
  eq_iff e.id id,
)

-- The ids that some chain of `dropsWith` links to those that are dropped.
pub data Linked (entries : List LadderEntry) (dropping : List String) : String → Type 0 where
  dropped : (id : String) → member dropping id ≡ true → Linked entries dropping id
  linked :
      (id also : String)
      → Linked entries dropping id
      → member (drops_with_of entries id) also ≡ true
      → Linked entries dropping also

module _ (entries : List LadderEntry) where
  close_total :
      (fuel : ℕ) (pending out : List String)
      → length pending + open_drops out entries < fuel
      → (r : List String) × (close entries fuel pending out ≡ some r)
  unfolding close
  close_total zero pending out h = absurd (omega arith)
  close_total (suc fuel) [] out h = (out, refl)
  close_total (suc fuel) (id ∷ pending) out h = elim (Bool-cases (member out id)) [
    | inl t ↦ rw t (close_total fuel pending out (omega arith))
    | inr t ↦ rw t (
        close_total fuel (push_all (drops_with_of entries id) pending) (out ++ id ∷ []) (
          omega (
            arith,
            length-push_all (drops_with_of entries id) pending,
            open_drops-expand out id entries t,
          )))
  ]

  -- What is in `out` has all that drops with it in `out` or in `pending`.
  abbrev Covered : List String → List String → Type 0
  Covered out pending =
      (x y : String)
      → member out x ≡ true
      → member (drops_with_of entries x) y ≡ true
      → (member out y || member pending y) ≡ true

  Covered-skip :
      (id : String) (pending out : List String)
      → member out id ≡ true
      → Covered out (id ∷ pending)
      → Covered out pending
  Covered-skip id pending out t c x y hx hy = ground (arith, c x y hx hy, eq_iff id y)

  Covered-add :
      (id : String) (pending out : List String)
      → Covered out (id ∷ pending)
      → Covered (out ++ id ∷ []) (push_all (drops_with_of entries id) pending)
  Covered-add id pending out c x y hx hy = ground (
    arith,
    c x y,
    hx,
    hy,
    eq_iff id x,
    eq_iff id y,
    any-append (λ z. str_eq z x) out (id ∷ []),
    any-append (λ z. str_eq z y) out (id ∷ []),
    member-push_all (drops_with_of entries id) pending y,
  )

  close_closed :
      (fuel : ℕ) (pending out r : List String)
      → close entries fuel pending out ≡ some r
      → Covered out pending
      → Covered r []
  unfolding close
  close_closed zero pending out r e c = cc
  close_closed (suc fuel) [] out r e c =
      let same_ : out ≡ r = cc in subst (λ o. Covered o []) same_ c
  close_closed (suc fuel) (id ∷ pending) out r e c = elim (Bool-cases (member out id)) [
    | inl t ↦ close_closed fuel pending out r (rw t at e) (Covered-skip id pending out t c)
    | inr t ↦
        close_closed fuel (push_all (drops_with_of entries id) pending) (out ++ id ∷ []) r
          (rw t at e) (Covered-add id pending out c)
  ]

  close_has :
      (fuel : ℕ) (pending out r : List String) (x : String)
      → close entries fuel pending out ≡ some r
      → (member out x || member pending x) ≡ true
      → member r x ≡ true
  unfolding close
  close_has zero pending out r x e h = cc
  close_has (suc fuel) [] out r x e h = ground (arith, e, h)
  close_has (suc fuel) (id ∷ pending) out r x e h = elim (Bool-cases (member out id)) [
    | inl t ↦ close_has fuel pending out r x (rw t at e) (ground (arith, h, t, eq_iff id x))
    | inr t ↦
        close_has fuel (push_all (drops_with_of entries id) pending) (out ++ id ∷ []) r x
          (rw t at e)
          (ground (
            arith,
            h,
            any-append (λ z. str_eq z x) out (id ∷ []),
            member-push_all (drops_with_of entries id) pending x,
          ))
  ]

  close_only :
      (dropping : List String) (fuel : ℕ) (pending out r : List String)
      → close entries fuel pending out ≡ some r
      → ((x : String) → (member out x || member pending x) ≡ true → Linked entries dropping x)
      → (x : String) → member r x ≡ true
      → Linked entries dropping x
  unfolding close
  close_only dropping zero pending out r e p x h = cc
  close_only dropping (suc fuel) [] out r e p x h = p x (ground (arith, e, h))
  close_only dropping (suc fuel) (id ∷ pending) out r e p x h = elim (Bool-cases (member out id)) [
    | inl t ↦
        close_only dropping fuel pending out r (rw t at e) (λ y k. p y (ground (arith, k))) x h
    | inr t ↦
        close_only dropping fuel (push_all (drops_with_of entries id) pending) (out ++ id ∷ []) r
          (rw t at e) (λ y k. added y k) x h
  ]
    where
      added :
          (y : String)
          → (member (out ++ id ∷ []) y || member (push_all (drops_with_of entries id) pending) y)
            ≡ true
          → Linked entries dropping y
      added y k =
          let here : member (id ∷ pending) id ≡ true = ground (arith, eq_iff id id) in
          elim (Bool-cases (member (drops_with_of entries id) y)) [
            | inl d ↦ linked id y (p id (ground (arith, here))) d
            | inr n ↦ p y (
                ground (
                  arith,
                  k,
                  n,
                  any-append (λ z. str_eq z y) out (id ∷ []),
                  member-push_all (drops_with_of entries id) pending y,
                ))
          ]

  -- The closure of any set of drops is found in the rounds that the model allows, and it has exactly
  -- the ids that some chain of `dropsWith` links to a dropped one.
  pub closure_exact :
      (dropping : List String)
      → (r : List String) × (closure entries dropping ≡ some r)
        × ((x : String) → (member r x ≡ true) ↔ Linked entries dropping x)
  unfolding closure
  closure_exact dropping =
      let stack = push_all dropping [] in
      let fuel = length dropping + all_drops entries + 1 in
      let (r, e) =
        close_total fuel stack []
          (omega (arith, length-push_all dropping [], open_drops-le entries)) in
      let covered = close_closed fuel stack [] r e (λ x y hx hy. cc) in
      let base : (x : String) → member dropping x ≡ true → member r x ≡ true =
        λ x h. close_has fuel stack [] r x e (ground (arith, h, member-push_all dropping [] x)) in
      (
        r,
        e,
        λ x. (
          close_only dropping fuel stack [] r e
              (λ y k. dropped y (ground (arith, k, member-push_all dropping [] y))) x,
          has_linked dropping r base covered x,
        ),
      )
    where
      has_linked :
          (dropping r : List String)
          → ((x : String) → member dropping x ≡ true → member r x ≡ true)
          → Covered r []
          → (x : String) → Linked entries dropping x
          → member r x ≡ true
      has_linked dropping r base c x (dropped _ h) = base x h
      has_linked dropping r base c x (linked id _ l h) =
          ground (arith, c id x (has_linked dropping r base c id l) h)
