-- ===== src/World/Staleness.antt =====
-- fusion/staleness.ts: ageing and the two clocks. A pattern is the list of its segments, as a field
-- path is; the map of policies is a list in its insertion order, sorted as `Array.sort` does, which
-- is stable. The closure's cache is a list that the lookup returns.
pub mod Lookup
pub mod Ages
mod Tests
use text.Mathlib.Text.{◌==◌ as str_eq}
use riki.Prelude.{
  ℕ, ◌*◌, ◌-◌, Bool, true, false, not, ◌&&◌, ◌||◌, List, [], ◌∷◌, Option, none, some, String, ℤ,
  gap, ltb, leb, count, if◌then◌else◌,
}
use riki.World.Fact.{Fact}
use riki.World.Path.{FieldPath}

pub data AgeBasis : Type 0 where
  wall game : AgeBasis

pub data Staleness : Type 0 where
  fresh aging stale expired : Staleness

pub record AgePolicy : Type 0 where
  pub basis : AgeBasis
  pub fresh_ms : ℕ
  pub aging_ms : ℕ
  pub expired_ms : ℕ

pub record Age : Type 0 where
  pub ms : ℕ
  pub basis : AgeBasis

abbrev pub Policies : Type 0
Policies = List (FieldPath × AgePolicy)

abbrev pub row : FieldPath → AgeBasis → ℕ → ℕ → ℕ → FieldPath × AgePolicy
row pattern basis fresh_ms aging_ms expired_ms = (
  pattern,
  record { basis = basis; fresh_ms = fresh_ms; aging_ms = aging_ms; expired_ms = expired_ms },
)

abbrev pub default_age_policies : Policies
default_age_policies =
    row ("meta" ∷ "*" ∷ []) wall 2_000 10_000 35_000
    ∷ row ("self" ∷ "*" ∷ []) game 1_500 5_000 60_000
    ∷ row ("map" ∷ "daytime" ∷ []) game 5_000 30_000 120_000
    ∷ row ("map" ∷ "buildings" ∷ []) game 2_000 15_000 120_000
    ∷ row ("map" ∷ "roshanState" ∷ []) game 30_000 120_000 900_000
    ∷ row ("map" ∷ "wardsSeen" ∷ []) game 5_000 30_000 180_000
    ∷ row ("*" ∷ "*" ∷ "position" ∷ []) game 2_000 6_000 20_000
    ∷ row ("*" ∷ "*" ∷ "lastSeenAt" ∷ []) game 20_000 60_000 150_000
    ∷ row ("*" ∷ "*" ∷ "alive" ∷ []) game 1_000 5_000 60_000
    ∷ row ("*" ∷ "*" ∷ "respawnIn" ∷ []) game 1_000 5_000 60_000
    ∷ row ("*" ∷ "*" ∷ "hero" ∷ []) game 600_000 3_600_000 7_200_000
    ∷ row ("*" ∷ "*" ∷ "level" ∷ []) game 10_000 60_000 600_000
    ∷ row ("*" ∷ "*" ∷ "netWorth" ∷ []) game 10_000 60_000 300_000
    ∷ row ("*" ∷ "*" ∷ "itemsSeen" ∷ "*" ∷ []) game 30_000 180_000 900_000
    ∷ []

abbrev pub fallback_age_policy : AgePolicy
fallback_age_policy = record {
  basis = game;
  fresh_ms = 2_000;
  aging_ms = 10_000;
  expired_ms = 60_000;
}

unfoldable pub matches : FieldPath → FieldPath → Bool
matches [] [] = true
matches (part ∷ parts) (segment ∷ segments) =
    (str_eq part "*" || str_eq part segment) && matches parts segments
matches _ _ = false

unfoldable pub specificity : FieldPath → ℕ
specificity pattern = count (λ part. not (str_eq part "*")) pattern

-- A stable sort, the most specific first.
unfoldable pub insert : FieldPath × AgePolicy → Policies → Policies
insert p [] = p ∷ []
insert p (q ∷ qs) =
    let rest = insert p qs in
    if leb (specificity q.0) (specificity p.0) then p ∷ q ∷ qs else q ∷ rest

unfoldable pub sort : Policies → Policies
sort [] = []
sort (p ∷ ps) = insert p (sort ps)

unfoldable pub find : AgePolicy → FieldPath → Policies → AgePolicy
find fallback segments [] = fallback
find fallback segments (p ∷ ps) =
    let rest = find fallback segments ps in if matches p.0 segments then p.1 else rest

abbrev pub resolve : Policies → AgePolicy → FieldPath → AgePolicy
resolve policies fallback field = find fallback field (sort policies)

abbrev pub same_path : FieldPath → FieldPath → Bool
same_path [] [] = true
same_path (a ∷ rest) (b ∷ others) = str_eq a b && same_path rest others
same_path _ _ = false

unfoldable pub cached : Policies → FieldPath → Option AgePolicy
cached [] field = none
cached ((key, policy) ∷ resolved) field =
    let rest = cached resolved field in if same_path key field then some policy else rest

module _ (policies : Policies) (fallback : AgePolicy) where
  -- `policyFor`, with the cache before and after.
  unfoldable pub policy_for : Policies → FieldPath → Policies × AgePolicy
  policy_for resolved field = elim (cached resolved field) [
    | some policy ↦ (resolved, policy)
    | none ↦ let hit = resolve policies fallback field in ((field, hit) ∷ resolved, hit)
  ]

unfoldable pub age_in_basis {ℓ} : {V : Type ℓ} → Fact V → ℕ → Option ℤ → AgeBasis → Age
age_in_basis fact now (some clock) game = elim fact.at_game_clock [
  | some at ↦ record { ms = gap clock at * 1000; basis = game }
  | none ↦ record { ms = now - fact.observed_at; basis = wall }
]
age_in_basis fact now _ _ = record { ms = now - fact.observed_at; basis = wall }

unfoldable pub age_of {ℓ} : {V : Type ℓ} → Fact V → ℕ → Option ℤ → Age
age_of fact now clock = age_in_basis fact now clock game

-- `classify`, once the field's policy is known.
unfoldable pub classify_age : AgePolicy → ℕ → Staleness
classify_age policy ms =
    if ltb ms policy.fresh_ms
    then fresh
    else if ltb ms policy.aging_ms
    then aging
    else if ltb ms policy.expired_ms
    then stale
    else expired

unfoldable pub classify {ℓ} :
    {V : Type ℓ} → Policies → AgePolicy → FieldPath → Fact V → ℕ → Option ℤ → Staleness
classify policies fallback field fact now clock =
    let policy = resolve policies fallback field in
    classify_age policy (age_in_basis fact now clock policy.basis).ms
