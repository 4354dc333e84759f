-- ===== src/World/Staleness/Tests.antt =====
-- The default table on concrete fields and facts.
use riki.Prelude.{ℕ, ◌≤◌, ◌≡◌, refl, inl, true, [], ◌∷◌, none, some, pos, negsuc, arith, map}
use riki.World.Fact.{Fact, FactSource, certain}
use riki.World.Path.{FieldPath}
use riki.World.Staleness.{
  game, wall, default_age_policies, fallback_age_policy, matches, specificity, insert, sort, find,
  resolve, row, classify,
}
use riki.World.Staleness.Lookup.{In, Row, resolve_best, answers, answers-resolve}
use riki.World.Staleness.Ages.{rank, classify_mono, paused_keeps_class}

abbrev sighting : Fact ℕ
sighting = record {
  value = 3;
  source = FactSource.cv;
  confidence = certain;
  observed_at = 90_000;
  at_game_clock = some (negsuc 4);
  origin = none;
}

abbrev position_path : FieldPath
position_path = "enemies" ∷ "sf" ∷ "position" ∷ []

abbrev position_row : Row
position_row = row ("*" ∷ "*" ∷ "position" ∷ []) game 2_000 6_000 20_000

-- The pattern with two wildcards is behind the ones with none, wherever it stands.
chosen :
    resolve
      (row ("map" ∷ "*" ∷ []) wall 1 2 3 ∷ row ("map" ∷ "daytime" ∷ []) game 4 5 6 ∷ [])
      fallback_age_policy
      ("map" ∷ "daytime" ∷ [])
    ≡ (record { basis = game; fresh_ms = 4; aging_ms = 5; expired_ms = 6 })
unfolding find sort insert matches specificity
chosen = refl

position_matches : matches ("*" ∷ "*" ∷ "position" ∷ []) position_path ≡ true
unfolding matches
position_matches = refl

position_game : (resolve (position_row ∷ []) fallback_age_policy position_path).basis ≡ game
unfolding find sort insert matches specificity
position_game = refl

resolve_best_example :
    (p : Row) × In p (position_row ∷ [])
    × (matches p.0 position_path ≡ true)
    × (specificity ("*" ∷ "*" ∷ "position" ∷ []) ≤ specificity p.0)
    × (resolve (position_row ∷ []) fallback_age_policy position_path ≡ p.1)
resolve_best_example =
    resolve_best (position_row ∷ []) fallback_age_policy position_path position_row (inl refl)
      position_matches

answers-resolve_example :
    answers default_age_policies fallback_age_policy []
      (position_path ∷ ("map" ∷ "daytime" ∷ []) ∷ position_path ∷ [])
    ≡ map
        (resolve default_age_policies fallback_age_policy)
        (position_path ∷ ("map" ∷ "daytime" ∷ []) ∷ position_path ∷ [])
answers-resolve_example =
    answers-resolve default_age_policies fallback_age_policy []
      (position_path ∷ ("map" ∷ "daytime" ∷ []) ∷ position_path ∷ []) tt

classify_mono_example :
    rank (
      classify default_age_policies fallback_age_policy position_path sighting 91_000
        (some (negsuc 3)))
    ≤ rank (
        classify default_age_policies fallback_age_policy position_path sighting 99_000
          (some (pos 4)))
classify_mono_example =
    classify_mono default_age_policies fallback_age_policy position_path sighting 91_000 99_000
      (some (negsuc 3)) (some (pos 4)) (omega arith) refl

paused_keeps_class_example :
    classify (position_row ∷ []) fallback_age_policy position_path sighting 91_000 (some (pos 1))
    ≡ classify (position_row ∷ []) fallback_age_policy position_path sighting 900_000 (some (pos 1))
paused_keeps_class_example =
    paused_keeps_class (position_row ∷ []) fallback_age_policy position_path sighting 91_000 900_000
      (pos 1) (negsuc 4) refl position_game
