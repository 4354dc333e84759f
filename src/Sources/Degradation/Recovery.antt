-- ===== src/Sources/Degradation/Recovery.antt =====
-- The hysteresis of degradation.ts over a series of evaluations.
use riki.Prelude.{
  ℕ, ◌+◌, ◌≤◌, ◌<◌, ◌≡◌, ◌⊎◌, refl, ◌∙◌, ap, List, [], ◌∷◌, ◌++◌, none, some, String, arith,
}
use riki.Sources.Degradation.{
  DegradationLevel, DegradationInput, level_index, implied_level, Controller, follow, evaluate,
  evaluate_all,
}

module _ (hysteresis_ms : ℕ) (vision : List String) where
  -- Every evaluation finds health that is better than the level, within the window from `first`.
  abbrev pub BetterWithin : DegradationLevel → ℕ → List (DegradationInput × ℕ) → Type 0
  BetterWithin level first [] = Unit {0}
  BetterWithin level first ((input, now) ∷ rest) =
      (level_index (implied_level vision input) < level_index level)
      × (now < first + hysteresis_ms)
      × BetterWithin level first rest

  recovering-stays :
      (c : Controller) (first : ℕ) (es : List (DegradationInput × ℕ))
      → c.recovering_since ≡ some first
      → BetterWithin c.level first es
      → evaluate_all hysteresis_ms vision c es ≡ c
  unfolding evaluate_all evaluate follow
  recovering-stays c first [] e b = refl
  recovering-stays c first ((input, now) ∷ rest) e b =
      let next = evaluate hysteresis_ms vision c input now in
      let same_ : next ≡ c = ground (arith, e, b) in
      ap (λ d. evaluate_all hysteresis_ms vision d rest) same_ ∙ recovering-stays c first rest e b.2

  evaluate_all-append :
      (c : Controller) (xs ys : List (DegradationInput × ℕ))
      → evaluate_all hysteresis_ms vision c (xs ++ ys)
        ≡ evaluate_all hysteresis_ms vision (evaluate_all hysteresis_ms vision c xs) ys
  unfolding evaluate_all
  evaluate_all-append c [] ys = refl
  evaluate_all-append c ((input, now) ∷ xs) ys =
      evaluate_all-append (evaluate hysteresis_ms vision c input now) xs ys

  -- Recovery waits: from the first evaluation at which the health is better than the level, as
  -- long as it stays better and the window is not over, the level stays; at the first evaluation
  -- after the window with better health, it becomes what that one evaluation implies.
  pub recovery_waits :
      (c : Controller) (begun : DegradationInput) (first : ℕ) (es : List (DegradationInput × ℕ))
      (last : DegradationInput) (now : ℕ)
      → c.recovering_since ≡ none
      → BetterWithin c.level first ((begun, first) ∷ es)
      → level_index (implied_level vision last) < level_index c.level
      → first + hysteresis_ms ≤ now
      → ((evaluate_all hysteresis_ms vision c ((begun, first) ∷ es)).level ≡ c.level)
        × ((evaluate_all hysteresis_ms vision c (((begun, first) ∷ es) ++ (last, now) ∷ [])).level
            ≡ implied_level vision last)
  unfolding evaluate_all evaluate follow
  recovery_waits c begun first es last now e b better over =
      let waiting : Controller = record c { recovering_since = some first } in
      let starts : evaluate hysteresis_ms vision c begun first ≡ waiting = ground (arith, e, b) in
      let stays : evaluate_all hysteresis_ms vision c ((begun, first) ∷ es) ≡ waiting =
        ap (λ d. evaluate_all hysteresis_ms vision d es) starts
        ∙ recovering-stays waiting first es refl b.2 in
      let ends : (evaluate hysteresis_ms vision waiting last now).level
          ≡ implied_level vision last =
        ground (arith, better, over) in
      (
        ap (λ d. d.level) stays,
        ap (λ d. d.level) (evaluate_all-append c ((begun, first) ∷ es) ((last, now) ∷ []))
            ∙ ap (λ d. (evaluate hysteresis_ms vision d last now).level) stays
            ∙ ends,
      )

  -- Degradation is never delayed, and no evaluation leaves a level that is better than the health
  -- that it finds.
  pub evaluate_never_better :
      (c : Controller) (input : DegradationInput) (now : ℕ)
      → let after = evaluate hysteresis_ms vision c input now in
        (level_index (implied_level vision input) ≤ level_index after.level)
        × ((after.level ≡ c.level) ⊎ (after.level ≡ implied_level vision input))
  unfolding evaluate follow
  evaluate_never_better c input now = ground arith
