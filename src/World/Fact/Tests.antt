-- ===== src/World/Fact/Tests.antt =====
-- Derived facts on concrete inputs.
use riki.Prelude.{ℕ, ◌≡◌, refl, [], ◌∷◌, none, some, pos, negsuc}
use riki.World.Fact.{
  Fact, FactSource, Timestamps, derived, derived_fact, oldest_game_clock, oldest_from, certain,
}
use riki.World.Fact.Weakest.{NoneWeaker, TimesOfOne, derived_weakest}

abbrev later : Timestamps
later = record { observed_at = 900; at_game_clock = some (pos 30) }

abbrev gold : Fact ℕ
gold = record {
  value = 1450;
  source = FactSource.gsi;
  confidence = certain;
  observed_at = 800;
  at_game_clock = some (pos 28);
  origin = none;
}

abbrev estimate : Fact ℕ
estimate = record gold {
  value = 2100;
  source = FactSource.cv;
  confidence = 700_000;
  observed_at = 300;
  at_game_clock = some (negsuc 1);
}

oldest : oldest_game_clock (gold ∷ estimate ∷ []) ≡ some (negsuc 1)
unfolding oldest_game_clock oldest_from
oldest = refl

derived_weakest_example :
    let out = derived_fact {V = ℕ} 650 later (gold ∷ estimate ∷ []) in
    NoneWeaker out.confidence out.observed_at (gold ∷ estimate ∷ [])
    × TimesOfOne
        (record { observed_at = out.observed_at; at_game_clock = out.at_game_clock })
        (gold ∷ estimate ∷ [])
    × (out.source ≡ derived)
    × (out.origin ≡ none)
derived_weakest_example = derived_weakest {V = ℕ} 650 later gold (estimate ∷ [])
