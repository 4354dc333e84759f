-- ===== src/Context/Compose/Tests.antt =====
-- Compositions of concrete sections.
use riki.Prelude.{
  ℕ, ◌+◌, ◌≤◌, ◌≡◌, ◌⊎◌, refl, Bool, true, false, List, [], ◌∷◌, ◌++◌, String, map, filter,
}
use mathlib.Core.List.{Perm}
use riki.Context.Compose.{Section, Budget, Placed, number, is_kept, cost, drop_while_over, compose}
use riki.Context.Compose.Drops.{Ascending, OverBefore, places, ids, compose_drops_least}
use riki.Context.Compose.Kept.{is_fixed, compose_keeps_fixed}

abbrev section : String → ℕ → ℕ → Bool → Section
section id priority tokens droppable = record {
  id = id;
  priority = priority;
  line = id;
  tokens = tokens;
  droppable = droppable;
}

abbrev three : List Section
three = section "header" 100 12 false ∷ section "seen" 50 30 true ∷ section "map" 30 20 true ∷ []

abbrev tight : Budget
tight = record { max_tokens = 60; spent_tokens = 10 }

-- The map goes first, and what is left fits exactly with its separator.
composed : compose 1 tight three ≡ (record {
  text = "header" ∷ "seen" ∷ [];
  tokens = 43;
  truncated = true;
  omitted = "map" ∷ [];
})
unfolding compose drop_while_over cost
composed = refl

-- Where nothing but the fixed sections would fit, they stay.
too_tight : (compose 1 (record { max_tokens = 1; spent_tokens = 0 }) three).text ≡ "header" ∷ []
unfolding compose drop_while_over cost
too_tight = refl

compose_drops_least_example :
    let placed = number 0 three in
    let out = compose 1 tight three in
    (dropped left : List Placed) × Perm (filter (λ p. p.1.droppable) placed) (dropped ++ left)
    × Ascending (dropped ++ left)
    × (out.omitted ≡ ids dropped)
    × OverBefore 1 tight placed [] dropped
    × ((out.tokens + 10 ≤ 60) ⊎ (left ≡ []))
    × (out.text ≡ map (λ p. p.1.line) (filter (is_kept (places dropped)) placed))
    × (out.tokens ≡ cost 1 tight placed (places dropped))
compose_drops_least_example = compose_drops_least 1 tight three

compose_keeps_fixed_example :
    (kept : List Placed) × ((compose 1 tight three).text ≡ map (λ p. p.1.line) kept)
    × (filter is_fixed kept ≡ filter is_fixed (number 0 three))
compose_keeps_fixed_example = compose_keeps_fixed 1 tight three
