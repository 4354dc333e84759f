-- ===== src/Sources/Degradation/Tests.antt =====
-- Degradation on concrete health.
use riki.Prelude.{◌≤◌, ◌<◌, ◌≡◌, ◌⊎◌, refl, List, [], ◌∷◌, ◌++◌, none, String, arith}
use riki.Sources.Supervisor.{live, down, starting}
use riki.Sources.Degradation.{
  full, no_vlm, gsi_only, ok, drifting, DegradationInput, level_index, implied_level, Controller,
  initial_controller, recovery_hysteresis_ms, follow, evaluate, evaluate_all, waiting_for_dota,
  summarise,
}
use riki.Sources.Degradation.Recovery.{recovery_waits, evaluate_never_better}

abbrev crashed : DegradationInput
crashed = record { sources = (record { id = "sidecar"; health = down }) ∷ []; drift = ok }

abbrev healthy : DegradationInput
healthy = record { sources = (record { id = "sidecar"; health = live }) ∷ []; drift = ok }

abbrev off : DegradationInput
off = record healthy { drift = drifting }

abbrev vision : List String
vision = "sidecar" ∷ []

abbrev blind : Controller
blind = record { level = gsi_only; recovering_since = none }

goes_blind : evaluate recovery_hysteresis_ms vision initial_controller crashed 70 ≡ blind
unfolding evaluate follow implied_level
goes_blind = refl

-- Vision that is off in the configuration has no source.
no_vision : implied_level vision (record { sources = []; drift = ok }) ≡ gsi_only
unfolding implied_level
no_vision = refl

waits :
    summarise "gsi" blind
      (record { sources = (record { id = "gsi"; health = starting }) ∷ []; drift = ok })
    ≡ waiting_for_dota
unfolding summarise
waits = refl

off_level : implied_level vision off ≡ no_vlm
unfolding implied_level
off_level = refl

healthy_level : implied_level vision healthy ≡ full
unfolding implied_level
healthy_level = refl

off_better : level_index (implied_level vision off) < level_index gsi_only
off_better = rw off_level (omega arith)

healthy_better : level_index (implied_level vision healthy) < level_index gsi_only
healthy_better = rw healthy_level (omega arith)

-- Ten seconds of drifting vision, then one healthy evaluation.
recovery_waits_example :
    ((evaluate_all 10_000 vision blind ((off, 1_000) ∷ (off, 10_900) ∷ [])).level ≡ gsi_only)
    × ((evaluate_all 10_000 vision blind
          (((off, 1_000) ∷ (off, 10_900) ∷ []) ++ (healthy, 11_000) ∷ [])).level
        ≡ implied_level vision healthy)
recovery_waits_example =
    recovery_waits 10_000 vision blind off 1_000 ((off, 10_900) ∷ []) healthy 11_000 refl
      (off_better, omega arith, (off_better, omega arith, tt)) healthy_better (omega arith)

evaluate_never_better_example :
    (level_index (implied_level vision off)
      ≤ level_index (evaluate 10_000 vision blind off 5).level)
    × (((evaluate 10_000 vision blind off 5).level ≡ gsi_only)
        ⊎ ((evaluate 10_000 vision blind off 5).level ≡ implied_level vision off))
evaluate_never_better_example = evaluate_never_better 10_000 vision blind off 5
