-- ===== src/Context/Ladder/Tests.antt =====
-- The closure of drops in the ladder of snapshots.
use riki.Prelude.{◌≡◌, refl, ◌↔◌, true, List, [], ◌∷◌, some, String}
use riki.Context.Ladder.{snapshot_ladder, find_entry, drops_with_of, member, close, closure}
use riki.Context.Ladder.Closure.{Linked, closure_exact}

pair_drops : closure snapshot_ladder ("map" ∷ "unseen" ∷ []) ≡ some ("unseen" ∷ "seen" ∷ "map" ∷ [])
unfolding closure close drops_with_of find_entry
pair_drops = refl

closure_exact_example :
    (r : List String) × (closure snapshot_ladder ("unseen" ∷ []) ≡ some r)
    × ((x : String) → (member r x ≡ true) ↔ Linked snapshot_ladder ("unseen" ∷ []) x)
closure_exact_example = closure_exact snapshot_ladder ("unseen" ∷ [])
