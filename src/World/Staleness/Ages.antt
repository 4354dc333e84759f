-- ===== src/World/Staleness/Ages.antt =====
-- Ages and staleness of facts as the clocks go on.
use riki.Prelude.{
  ℕ, ◌*◌, ◌≤◌, ◌≡◌, true, Option, none, some, ℤ, arith, gap, leb_ℤ, Option-cases, inl, inr,
}
use riki.World.Fact.{Fact}
use riki.World.Path.{FieldPath}
use riki.World.Staleness.{
  AgeBasis, wall, game, AgePolicy, Staleness, fresh, aging, stale, expired, Policies, resolve,
  age_in_basis, classify_age, classify,
}

abbrev pub rank : Staleness → ℕ
rank fresh = 0
rank aging = 1
rank stale = 2
rank expired = 3

classify_age_mono :
    (policy : AgePolicy) (a b : ℕ)
    → a ≤ b
    → rank (classify_age policy a) ≤ rank (classify_age policy b)
unfolding classify_age
classify_age_mono policy a b h = ground arith

-- The clock at a later time: both readings, if there are any, and not the earlier one later.
abbrev pub NotBefore : Option ℤ → Option ℤ → Type 0
NotBefore none none = Unit {0}
NotBefore (some a) (some b) = leb_ℤ a b ≡ true
NotBefore _ _ = ⊥

gap_mono : (a b at : ℤ) → leb_ℤ a b ≡ true → gap a at * 1000 ≤ gap b at * 1000
gap_mono a b at h = ground arith

age_mono {ℓ} :
    {V : Type ℓ} (fact : Fact V) (now later : ℕ) (clock next : Option ℤ) (basis : AgeBasis)
    → now ≤ later
    → NotBefore clock next
    → (age_in_basis fact now clock basis).ms ≤ (age_in_basis fact later next basis).ms
unfolding age_in_basis
age_mono fact now later none none basis h k = omega arith
age_mono fact now later none (some b) basis h k = absurd k
age_mono fact now later (some a) none basis h k = absurd k
age_mono fact now later (some a) (some b) wall h k = omega arith
age_mono fact now later (some a) (some b) game h k = elim (Option-cases fact.at_game_clock) [
  | inl e ↦ ground (arith, e)
  | inr (at, e) ↦ ground (arith, e, gap_mono a b at k)
]

-- A fact never becomes fresher: as neither clock goes back, and a match clock neither appears nor
-- goes away, its class stays or gets staler, whatever the thresholds are.
pub classify_mono {ℓ} :
    {V : Type ℓ} (policies : Policies) (fallback : AgePolicy) (field : FieldPath) (fact : Fact V)
    (now later : ℕ) (clock next : Option ℤ)
    → now ≤ later
    → NotBefore clock next
    → rank (classify policies fallback field fact now clock)
      ≤ rank (classify policies fallback field fact later next)
unfolding classify
classify_mono policies fallback field fact now later clock next h k =
    let policy = resolve policies fallback field in
    classify_age_mono policy (age_in_basis fact now clock policy.basis).ms
      (age_in_basis fact later next policy.basis).ms
      (age_mono fact now later clock next policy.basis h k)

-- While the match clock stands still, a fact that carries one keeps its class under a policy on
-- the game basis, however long the pause.
pub paused_keeps_class {ℓ} :
    {V : Type ℓ} (policies : Policies) (fallback : AgePolicy) (field : FieldPath) (fact : Fact V)
    (now later : ℕ) (clock at : ℤ)
    → fact.at_game_clock ≡ some at
    → (resolve policies fallback field).basis ≡ game
    → classify policies fallback field fact now (some clock)
      ≡ classify policies fallback field fact later (some clock)
unfolding classify age_in_basis
paused_keeps_class policies fallback field fact now later clock at h k = ground (arith, h, k)
