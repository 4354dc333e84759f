-- ===== src/Sources/Degradation.antt =====
-- degradation.ts: the level of degradation that the health of the sources implies, with hysteresis
-- on the way back up. `summarise` gives one of its texts, by name.
pub mod Recovery
mod Tests
use text.Mathlib.Text.{◌==◌ as str_eq}
use riki.Prelude.{
  ℕ, ◌+◌, Bool, true, false, not, List, [], ◌∷◌, Option, none, some, String, any, all, filter, ltb,
  leb, if◌then◌else◌,
}
use riki.Sources.Supervisor.{HealthState, starting, live, degraded, down}

pub data DegradationLevel : Type 0 where
  full no_vlm no_scoreboard no_topbar gsi_only : DegradationLevel

pub data CvDriftStatus : Type 0 where
  ok drifting unknown : CvDriftStatus

pub record Source : Type 0 where
  pub id : String
  pub health : HealthState

pub record DegradationInput : Type 0 where
  pub sources : List Source
  pub drift : CvDriftStatus

-- `DEGRADATION_LEVELS.indexOf`
abbrev pub level_index : DegradationLevel → ℕ
level_index full = 0
level_index no_vlm = 1
level_index no_scoreboard = 2
level_index no_topbar = 3
level_index gsi_only = 4

abbrev pub recovery_hysteresis_ms : ℕ
recovery_hysteresis_ms = 10_000

abbrev pub is_down : HealthState → Bool
is_down down = true
is_down _ = false

abbrev pub is_drifting : CvDriftStatus → Bool
is_drifting drifting = true
is_drifting _ = false

-- The ids in `vision` are those of the sources that carry computer vision.
unfoldable pub implied_level : List String → DegradationInput → DegradationLevel
implied_level vision input =
    if all (λ source. is_down source.health)
      (filter (λ source. any (λ id. str_eq id source.id) vision) input.sources)
    then gsi_only
    else if is_drifting input.drift
    then no_vlm
    else full

pub record Controller : Type 0 where
  pub level : DegradationLevel
  pub recovering_since : Option ℕ

abbrev pub initial_controller : Controller
initial_controller = record { level = full; recovering_since = none }

-- `recoveringSince ??= now`
abbrev pub since_or : Option ℕ → ℕ → ℕ
since_or none now = now
since_or (some t) now = t

module _ (hysteresis_ms : ℕ) where
  -- `evaluate`, from the implied level on.
  unfoldable pub follow : Controller → DegradationLevel → ℕ → Controller
  follow c implied now =
      let since = since_or c.recovering_since now in
      if ltb (level_index c.level) (level_index implied)
      then record { level = implied; recovering_since = none }
      else if leb (level_index c.level) (level_index implied)
      then record c { recovering_since = none }
      else if leb (since + hysteresis_ms) now
      then record { level = implied; recovering_since = none }
      else record c { recovering_since = some since }

  unfoldable pub evaluate : List String → Controller → DegradationInput → ℕ → Controller
  unfolding follow
  evaluate vision c input now = follow c (implied_level vision input) now

  unfoldable pub evaluate_all : List String → Controller → List (DegradationInput × ℕ) → Controller
  evaluate_all vision c [] = c
  evaluate_all vision c ((input, now) ∷ rest) =
      evaluate_all vision (evaluate vision c input now) rest

pub data Summary : Type 0 where
  no_game_data waiting_for_dota watching reduced_screen_reading gsi_only_watching : Summary

abbrev pub find_health : List Source → String → Option HealthState
find_health [] id = none
find_health (source ∷ sources) id =
    let rest = find_health sources id in if str_eq source.id id then some source.health else rest

abbrev pub summary_of_level : DegradationLevel → Summary
summary_of_level full = watching
summary_of_level gsi_only = gsi_only_watching
summary_of_level _ = reduced_screen_reading

unfoldable pub summarise : String → Controller → DegradationInput → Summary
summarise gsi_source c input = elim (find_health input.sources gsi_source) [
  | none ↦ no_game_data
  | some down ↦ no_game_data
  | some starting ↦ waiting_for_dota
  | some _ ↦ summary_of_level c.level
]
