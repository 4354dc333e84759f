-- ===== src/Context/Renderer/Rounds.antt =====
-- The loop of the renderer: composing, and dropping what goes with what was dropped.
use text.Mathlib.TextEquality.{eq_iff}
use riki.Prelude.{
  ℕ, zero, suc, ◌≤◌, ◌<◌, ◌≡◌, inl, inr, ◌↔◌, refl, ap, sym, subst, ◌∙◌, Bool, true, false, not,
  ◌&&◌, List, [], ◌∷◌, Option, none, some, String, arith, filter, length, length-filter-le, ◌==◌,
  Bool-cases, if◌then◌else◌,
}
use riki.Context.Compose.{Section, Budget, Composed, compose}
use riki.Context.Compose.Kept.{droppable_named, omitted-droppable}
use riki.Context.Ladder.{LadderEntry, find_entry, drops_with_of, member, closure}
use riki.Context.Ladder.Closure.{Linked, dropped, linked, closure_exact}
use riki.Context.Renderer.{section_ids, rounds}

abbrev pub without : List String → List Section → List Section
without wanted candidates = filter (λ s. not (member wanted s.id)) candidates

member-without :
    (wanted : List String) (id : String) (ss : List Section)
    → member (section_ids (without wanted ss)) id
      ≡ (member (section_ids ss) id && not (member wanted id))
member-without wanted id [] = refl
member-without wanted id (s ∷ ss) = ground (arith, member-without wanted id ss, eq_iff s.id id)

length-without : (wanted : List String) (ss : List Section) → length (without wanted ss) ≤ length ss
length-without wanted ss = length-filter-le (λ s. not (member wanted s.id)) ss

-- Nothing was filtered, so no candidate is wanted.
none_wanted :
    (wanted : List String) (ss : List Section) (id : String)
    → length (without wanted ss) ≡ length ss
    → member (section_ids ss) id ≡ true
    → member wanted id ≡ false
none_wanted wanted [] id e h = cc
none_wanted wanted (s ∷ ss) id e h =
    ground (arith, e, h, none_wanted wanted ss id, length-without wanted ss, eq_iff s.id id)

droppable_named-member :
    (ss : List Section) (id : String)
    → droppable_named ss id ≡ true
    → member (section_ids ss) id ≡ true
droppable_named-member [] id h = h
droppable_named-member (s ∷ ss) id h = ground (arith, h, droppable_named-member ss id)

nothing_omitted :
    (omitted : List String) → ((id : String) → member omitted id ≡ true → ⊥) → omitted ≡ []
nothing_omitted [] h = refl
nothing_omitted (x ∷ xs) h = absurd (h x (ground (arith, eq_iff x x)))

module _ (entries : List LadderEntry) (separator_cost : ℕ) (budget : Budget) where
  abbrev pub composed_of : List Section → Composed
  composed_of candidates = compose separator_cost budget candidates

  round_zero :
      (candidates : List Section) → rounds entries separator_cost budget zero candidates ≡ none
  unfolding rounds
  round_zero candidates = refl

  round_step :
      (fuel : ℕ) (candidates : List Section) (wanted : List String)
      → closure entries (composed_of candidates).omitted ≡ some wanted
      → rounds entries separator_cost budget (suc fuel) candidates ≡ (
          if length (without wanted candidates) == length candidates
          then some (candidates, composed_of candidates)
          else rounds entries separator_cost budget fuel (without wanted candidates))
  unfolding rounds
  round_step fuel candidates wanted found = rw (found, rounds) refl

  pub rounds_total :
      (fuel : ℕ) (candidates : List Section)
      → length candidates < fuel
      → (r : List Section × Composed) × (rounds entries separator_cost budget fuel candidates
          ≡ some r)
  rounds_total zero candidates h = absurd (omega arith)
  rounds_total (suc fuel) candidates h =
      let (wanted, found, exact) = closure_exact entries (composed_of candidates).omitted in
      let next = without wanted candidates in
      let step = round_step fuel candidates wanted found in
      elim (Bool-cases (length next == length candidates)) [
        | inl t ↦ ((candidates, composed_of candidates), step ∙ rw t refl)
        | inr t ↦
            let fewer : length next < fuel = ground (arith, t, length-without wanted candidates) in
            let (r, e) = rounds_total fuel next fewer in (r, step ∙ rw t e)
      ]

  -- What the loop makes of its candidates, round by round.
  pub data Ends : List Section → List Section → Type 0 where
    settled :
        (candidates : List Section)
        → (composed_of candidates).omitted ≡ []
        → Ends candidates candidates
    shrinks :
        (candidates final : List Section) (wanted : List String)
        → ((x : String)
            → (member wanted x ≡ true) ↔ Linked entries (composed_of candidates).omitted x)
        → Ends (without wanted candidates) final
        → Ends candidates final

  pub rounds-Ends :
      (fuel : ℕ) (candidates final : List Section) (c : Composed)
      → rounds entries separator_cost budget fuel candidates ≡ some (final, c)
      → Ends candidates final × (c ≡ composed_of final)
  rounds-Ends zero candidates final c e =
      let empty : ◌≡◌ {A = Option (List Section × Composed)} none (some (final, c)) =
        sym (round_zero candidates) ∙ e in
      cc
  rounds-Ends (suc fuel) candidates final c e =
      let (wanted, found, exact) = closure_exact entries (composed_of candidates).omitted in
      let next = without wanted candidates in
      let step = sym (round_step fuel candidates wanted found) ∙ e in
      elim (Bool-cases (length next == length candidates)) [
        | inl t ↦
            let pair : ◌≡◌ {A = Option (List Section × Composed)}
                (some (candidates, composed_of candidates)) (some (final, c)) =
              rw t at step in
            let same_ : candidates ≡ final = cc in
            let same_composed : composed_of candidates ≡ c = cc in
            let kept : (id : String) → member (composed_of candidates).omitted id ≡ true → ⊥ =
              λ id h.
                let in_wanted = (exact id).1 (dropped id h) in
                let there =
                  droppable_named-member candidates id
                    (omitted-droppable separator_cost budget candidates id h) in
                let out = none_wanted wanted candidates id (ground (arith, t)) there in
                absurd (cc) in
            (
              subst (Ends candidates) same_
                  (settled candidates (nothing_omitted (composed_of candidates).omitted kept)),
              sym same_composed ∙ ap composed_of same_,
            )
        | inr t ↦
            let (ends, same_) = rounds-Ends fuel next final c (rw t at step) in
            (shrinks candidates final wanted exact ends, same_)
      ]

  Ends-member :
      (candidates final : List Section) (id : String)
      → Ends candidates final
      → member (section_ids final) id ≡ true
      → member (section_ids candidates) id ≡ true
  Ends-member candidates final id (settled _ _) h = h
  Ends-member candidates final id (shrinks _ _ wanted exact ends) h = ground (
    arith,
    Ends-member (without wanted candidates) final id ends h,
    member-without wanted id candidates,
  )

  -- What drops with a section that left is not among those that stay.
  pub Ends-pairs :
      (candidates final : List Section) (x y : String)
      → Ends candidates final
      → member (section_ids candidates) x ≡ true
      → member (section_ids final) x ≡ false
      → member (drops_with_of entries x) y ≡ true
      → member (section_ids final) y ≡ false
  Ends-pairs candidates final x y (settled _ _) there gone pair = cc
  Ends-pairs candidates final x y (shrinks _ _ wanted exact ends) there gone pair =
      let next = without wanted candidates in
      elim (Bool-cases (member wanted x)) [
        | inl w ↦
            let wy = (exact y).1 (linked x y ((exact x).0 w) pair) in
            let cut = member-without wanted y candidates in
            elim (Bool-cases (member (section_ids final) y)) [
              | inl stays ↦ absurd (ground (arith, Ends-member next final y ends stays, cut, wy))
              | inr out ↦ out
            ]
        | inr w ↦
            Ends-pairs next final x y ends (ground (arith, member-without wanted x candidates)) gone
              pair
      ]

  -- A section is droppable exactly if the ladder says so of its id.
  abbrev pub ladder_drops : String → Bool
  ladder_drops id = elim (find_entry entries id) [ none ↦ false | some e ↦ e.droppable ]

  abbrev pub Keyed : List Section → Type 0
  Keyed [] = Unit {0}
  Keyed (s ∷ ss) = (s.droppable ≡ ladder_drops s.id) × Keyed ss

  Keyed-without : (wanted : List String) (ss : List Section) → Keyed ss → Keyed (without wanted ss)
  Keyed-without wanted [] k = k
  Keyed-without wanted (s ∷ ss) k = elim (Bool-cases (member wanted s.id)) [
    | inl t ↦ rw t (Keyed-without wanted ss k.1)
    | inr t ↦ rw t (k.0, Keyed-without wanted ss k.1)
  ]

  Keyed-named :
      (ss : List Section) (id : String)
      → Keyed ss
      → droppable_named ss id ≡ true
      → ladder_drops id ≡ true
  Keyed-named [] id k h = cc
  Keyed-named (s ∷ ss) id k h = ground (arith, h, k.0, Keyed-named ss id k.1, eq_iff s.id id)

  abbrev pub is_fixed : Section → Bool
  is_fixed s = not s.droppable

  fixed-without :
      (wanted : List String) (ss : List Section)
      → Keyed ss
      → ((x : String) → member wanted x ≡ true → ladder_drops x ≡ true)
      → filter is_fixed (without wanted ss) ≡ filter is_fixed ss
  fixed-without wanted [] k h = refl
  fixed-without wanted (s ∷ ss) k h = ground (arith, fixed-without wanted ss k.1 h, k.0, h s.id)

  module _
      (paired : (x y : String)
        → ladder_drops x ≡ true
        → member (drops_with_of entries x) y ≡ true
        → ladder_drops y ≡ true) where
    Linked-drops :
        (candidates : List Section) (x : String)
        → Keyed candidates
        → Linked entries (composed_of candidates).omitted x
        → ladder_drops x ≡ true
    Linked-drops candidates x k (dropped _ h) =
        Keyed-named candidates x k (omitted-droppable separator_cost budget candidates x h)
    Linked-drops candidates x k (linked id _ l pair) =
        paired id x (Linked-drops candidates id k l) pair

    -- If what drops with a droppable section is droppable, the others all stay, in their order.
    pub Ends-fixed :
        (candidates final : List Section)
        → Keyed candidates
        → Ends candidates final
        → filter is_fixed final ≡ filter is_fixed candidates
    Ends-fixed candidates final k (settled _ _) = refl
    Ends-fixed candidates final k (shrinks _ _ wanted exact ends) =
        Ends-fixed (without wanted candidates) final (Keyed-without wanted candidates k) ends
        ∙ fixed-without wanted candidates k (λ x h. Linked-drops candidates x k ((exact x).0 h))

  pub Ends-settled :
      (candidates final : List Section) → Ends candidates final → (composed_of final).omitted ≡ []
  Ends-settled candidates final (settled _ h) = h
  Ends-settled candidates final (shrinks _ _ wanted exact ends) =
      Ends-settled (without wanted candidates) final ends
