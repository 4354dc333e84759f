-- ===== src/World/Fact/Weakest.antt =====
-- What a derived fact inherits.
use riki.Prelude.{ℕ, ◌≤◌, ◌≡◌, ◌⊎◌, refl, true, false, List, [], ◌∷◌, none, arith, min, inl}
use riki.World.Fact.{
  Fact, derived, Timestamps, Provenance, weaken, weaken_all, derived_fact, certain,
}

module _ {κ} {W : Type κ} where
  abbrev pub times : Fact W → Timestamps
  times f = record { observed_at = f.observed_at; at_game_clock = f.at_game_clock }

  -- No fact of the list has a lower confidence or was observed earlier.
  abbrev pub NoneWeaker : ℕ → ℕ → List (Fact W) → Type 0
  NoneWeaker confidence observed_at [] = Unit {0}
  NoneWeaker confidence observed_at (f ∷ fs) =
      (confidence ≤ f.confidence)
      × (observed_at ≤ f.observed_at)
      × NoneWeaker confidence observed_at fs

  abbrev pub TimesOfOne : Timestamps → List (Fact W) → Type 0
  TimesOfOne at [] = ⊥
  TimesOfOne at (f ∷ fs) = (at ≡ times f) ⊎ TimesOfOne at fs

  NoneWeaker-weaken :
      (c o c' o' : ℕ) (fs : List (Fact W))
      → c ≤ c'
      → o ≤ o'
      → NoneWeaker c' o' fs
      → NoneWeaker c o fs
  NoneWeaker-weaken c o c' o' [] h k n = n
  NoneWeaker-weaken c o c' o' (f ∷ fs) h k n =
      (omega arith, omega arith, NoneWeaker-weaken c o c' o' fs h k n.2)

  weaken_all-le :
      (p : Provenance) (from : List (Fact W))
      → p.first ≡ false
      → let out = weaken_all p from in
        (out.confidence ≤ p.confidence)
        × (out.at.observed_at ≤ p.at.observed_at)
        × NoneWeaker out.confidence out.at.observed_at from
        × ((out.at ≡ p.at) ⊎ TimesOfOne out.at from)
  unfolding weaken_all
  weaken_all-le p [] h = (omega arith, omega arith, tt, inl refl)
  weaken_all-le p (i ∷ from) h =
      let next = weaken p i in
      let (c, o, n, t) = weaken_all-le next from (ground arith) in
      let fewer : next.confidence ≤ min p.confidence i.confidence = ground arith in
      let earlier : (next.at.observed_at ≤ p.at.observed_at)
          × (next.at.observed_at ≤ i.observed_at) =
        ground arith in
      (omega arith, omega arith, (omega arith, omega arith, n), ground arith)

-- A fact derived from some facts is at most as certain as each of them and at least as old, and
-- both its times are those of one of them; it has no origin, and its source says it is derived.
pub derived_weakest {ℓ κ} :
    {V : Type ℓ} {W : Type κ} (value : V) (at : Timestamps) (i : Fact W) (from : List (Fact W))
    → let out = derived_fact value at (i ∷ from) in
      NoneWeaker out.confidence out.observed_at (i ∷ from)
      × TimesOfOne
          (record { observed_at = out.observed_at; at_game_clock = out.at_game_clock })
          (i ∷ from)
      × (out.source ≡ derived)
      × (out.origin ≡ none)
unfolding derived_fact weaken_all
derived_weakest value at i from =
    let start : Provenance = record { confidence = certain; at = at; first = true } in
    let next = weaken start i in
    let (c, o, n, t) = weaken_all-le next from refl in
    let fewer : next.confidence ≤ i.confidence = ground arith in
    ((omega arith, omega arith, n), t, refl, refl)
