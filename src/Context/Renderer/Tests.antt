-- ===== src/Context/Renderer/Tests.antt =====
-- Snapshots of concrete sections under the ladder.
use text.Mathlib.TextEquality.{eq_iff}
use text.Mathlib.Text.{◌==◌ as str_eq}
use riki.Prelude.{
  ℕ, ◌+◌, ◌≤◌, ◌≡◌, ◌⊎◌, refl, true, false, List, [], ◌∷◌, none, some, String, map, filter, any,
  ltb, arith, Bool-cases, inl, inr,
}
use mathlib.Core.Option
use riki.Context.Compose.{Budget, compose, drop_while_over, cost}
use riki.Context.Ladder.{snapshot_ladder, find_entry, drops_with_of, member, close, closure}
use riki.Context.Renderer.{RenderedSnapshot, Built, build, rounds, render}
use riki.Context.Renderer.Rounds.{ladder_drops, is_fixed}
use riki.Context.Renderer.Sections.{
  built_of, is_closed, render_total, render_keeps_fixed, render_truncated,
}

abbrev line : String → ℕ → Built
line id tokens =
    (id, some (record { id = id; priority = 0; line = id; tokens = tokens; droppable = false }))

abbrev sources : List Built
sources =
    line "header" 20 ∷ line "seen" 15 ∷ line "unseen" 10 ∷ ("derived", none) ∷ line "map" 9 ∷ []

abbrev tight : Budget
tight = record { max_tokens = 40; spent_tokens = 0 }

-- The map and `unseen` are dropped, and `seen` goes with `unseen`.
rendered : Option.map (λ r. r.text) (render snapshot_ladder 1 tight sources) ≡ some ("header" ∷ [])
unfolding render rounds build compose drop_while_over cost closure close drops_with_of find_entry
rendered = refl

lost :
    Option.map (λ r. r.omitted) (render snapshot_ladder 1 tight sources)
    ≡ some ("derived" ∷ "seen" ∷ "unseen" ∷ "map" ∷ [])
unfolding render rounds build compose drop_while_over cost closure close drops_with_of find_entry
lost = refl

render_total_example :
    (r : RenderedSnapshot) × (render snapshot_ladder 1 tight sources ≡ some r)
    × (r.text ≡ map (λ s. s.line) r.sections)
    × ((r.tokens + 0 ≤ 40) ⊎ (any (λ s. s.droppable) r.sections ≡ false))
    × (is_closed snapshot_ladder 1 tight (built_of snapshot_ladder 1 tight sources) r.sections
        ≡ true)
render_total_example = render_total snapshot_ladder 1 tight sources

others_alone :
    (x y : String)
    → str_eq "seen" x ≡ false
    → str_eq "unseen" x ≡ false
    → member (drops_with_of snapshot_ladder x) y ≡ false
unfolding drops_with_of find_entry
others_alone x y s u = ground arith

-- In the ladder of snapshots only `seen` and `unseen` drop with another, and both may be dropped.
ladder_pairs :
    (x y : String)
    → ladder_drops snapshot_ladder 1 tight x ≡ true
    → member (drops_with_of snapshot_ladder x) y ≡ true
    → ladder_drops snapshot_ladder 1 tight y ≡ true
unfolding drops_with_of find_entry
ladder_pairs x y h pair = elim (Bool-cases (str_eq "seen" x)) [
  | inl s ↦
      let at_seen : "seen" ≡ x = (eq_iff "seen" x).0 s in
      let only : member ("unseen" ∷ []) y ≡ true = rw (← at_seen) at pair in
      let other : "unseen" ≡ y = (eq_iff "unseen" y).0 (ground (arith, only)) in rw (← other) refl
  | inr s ↦ elim (Bool-cases (str_eq "unseen" x)) [
    | inl u ↦
        let at_unseen : "unseen" ≡ x = (eq_iff "unseen" x).0 u in
        let only : member ("seen" ∷ []) y ≡ true = rw (← at_unseen) at pair in
        let other : "seen" ≡ y = (eq_iff "seen" y).0 (ground (arith, only)) in rw (← other) refl
    | inr u ↦ cc (others_alone x y s u)
  ]
]

render_keeps_fixed_example :
    (r : RenderedSnapshot) × (render snapshot_ladder 1 tight sources ≡ some r)
    × (filter (is_fixed snapshot_ladder 1 tight) r.sections
        ≡ filter (is_fixed snapshot_ladder 1 tight) (built_of snapshot_ladder 1 tight sources))
render_keeps_fixed_example =
    render_keeps_fixed snapshot_ladder 1 tight sources ladder_pairs
      (refl, (refl, (refl, (refl, tt))))

render_truncated_example :
    (r : RenderedSnapshot) × (render snapshot_ladder 1 tight sources ≡ some r)
    × (r.truncated ≡ ltb 40 (r.tokens + 0))
render_truncated_example = render_truncated snapshot_ladder 1 tight sources
