-- ===== src/World/Fact.antt =====
-- fact.ts: a value with its provenance. A confidence is a natural number, in units of which
-- `certain` is full confidence; the code only compares confidences and takes their minimum.
pub mod Weakest
mod Tests
use riki.Prelude.{
  ℕ, Bool, true, false, List, [], ◌∷◌, Option, none, some, String, ℤ, ltb, ltb_ℤ, ◌||◌, min,
  if◌then◌else◌,
}

pub data FactSource : Type 0 where
  gsi log cv api derived : FactSource

unfoldable pub FactSource-discrete : Discrete FactSource
FactSource-discrete = hlevel

pub record Timestamps : Type 0 where
  pub observed_at : ℕ
  pub at_game_clock : Option ℤ

pub record Fact {ℓ} (V : Type ℓ) : Type ℓ where
  pub value : V
  pub source : FactSource
  pub confidence : ℕ
  pub observed_at : ℕ
  pub at_game_clock : Option ℤ
  pub origin : Option String

abbrev pub certain : ℕ
certain = 1_000_000

module _ {ℓ} {V : Type ℓ} where
  abbrev pub stamp : V → FactSource → ℕ → Timestamps → Option String → Fact V
  stamp value source confidence at origin = record {
    value = value;
    source = source;
    confidence = confidence;
    observed_at = at.observed_at;
    at_game_clock = at.at_game_clock;
    origin = origin;
  }

  unfoldable pub gsi_fact : V → Timestamps → Option String → Fact V
  gsi_fact value at origin = stamp value gsi certain at origin

  unfoldable pub log_fact : V → Timestamps → Option String → Fact V
  log_fact value at origin = stamp value log certain at origin

  unfoldable pub cv_fact : V → Timestamps → ℕ → String → Fact V
  cv_fact value at confidence detector = stamp value cv confidence at (some detector)

  unfoldable pub api_fact : V → Timestamps → Option String → Fact V
  api_fact value at origin = stamp value api certain at origin

-- The variables of the loop of `derivedFact`.
pub record Provenance : Type 0 where
  pub confidence : ℕ
  pub at : Timestamps
  pub first : Bool

module _ {κ} {W : Type κ} where
  abbrev pub weaken : Provenance → Fact W → Provenance
  weaken p input =
      let lower = min p.confidence input.confidence in
      if p.first || ltb input.observed_at p.at.observed_at
      then record {
        confidence = lower;
        at = record { observed_at = input.observed_at; at_game_clock = input.at_game_clock };
        first = false;
      }
      else record p { confidence = lower }

  unfoldable pub weaken_all : Provenance → List (Fact W) → Provenance
  weaken_all p [] = p
  weaken_all p (input ∷ from) = weaken_all (weaken p input) from

unfoldable pub derived_fact {ℓ κ} :
    {V : Type ℓ} {W : Type κ} → V → Timestamps → List (Fact W) → Fact V
unfolding weaken_all
derived_fact value at from =
    let p = weaken_all (record { confidence = certain; at = at; first = true }) from in
    stamp value derived p.confidence p.at none

abbrev pub older : Option ℤ → Option ℤ → Option ℤ
older oldest none = oldest
older none (some at) = some at
older (some best) (some at) = if ltb_ℤ at best then some at else some best

unfoldable pub oldest_from {κ} : {W : Type κ} → Option ℤ → List (Fact W) → Option ℤ
oldest_from oldest [] = oldest
oldest_from oldest (fact ∷ from) = oldest_from (older oldest fact.at_game_clock) from

unfoldable pub oldest_game_clock {κ} : {W : Type κ} → List (Fact W) → Option ℤ
unfolding oldest_from
oldest_game_clock from = oldest_from none from
