-- ===== src/Sources/MatchSession.antt =====
-- packages/gsi/src/session.ts: the life cycle of a match, as edges. A payload is what the tracker
-- reads of it, where an absent field is `none`, and the heroes that `draftHeroes` finds. The match
-- clock is in whole seconds; elapsed time and the threshold are in milliseconds, so differences
-- are compared as sums of milliseconds.
pub mod Edges
mod Tests
use text.Mathlib.Text.{◌==◌ as str_eq}
use riki.Prelude.{
  ℕ, ◌+◌, ◌-◌, ◌*◌, Bool, true, false, not, ◌&&◌, ◌||◌, List, [], ◌∷◌, ◌++◌, Option, none, some,
  String, ℤ, pos_part, neg_part, ltb, same, if◌then◌else◌,
}

pub data MatchPhase : Type 0 where
  idle draft hero_selection strategy pre_game in_progress post_game : MatchPhase

unfoldable pub MatchPhase-discrete : Discrete MatchPhase
MatchPhase-discrete = hlevel

-- `PHASES`
unfoldable pub phases : String → Option MatchPhase
phases state =
    if str_eq state "DOTA_GAMERULES_STATE_INIT"
    then some idle
    else if str_eq state "DOTA_GAMERULES_STATE_WAIT_FOR_PLAYERS_TO_LOAD"
    then some idle
    else if str_eq state "DOTA_GAMERULES_STATE_HERO_SELECTION"
    then some hero_selection
    else if str_eq state "DOTA_GAMERULES_STATE_STRATEGY_TIME"
    then some strategy
    else if str_eq state "DOTA_GAMERULES_STATE_TEAM_SHOWCASE"
    then some pre_game
    else if str_eq state "DOTA_GAMERULES_STATE_WAIT_FOR_MAP_TO_LOAD"
    then some pre_game
    else if str_eq state "DOTA_GAMERULES_STATE_PRE_GAME"
    then some pre_game
    else if str_eq state "DOTA_GAMERULES_STATE_GAME_IN_PROGRESS"
    then some in_progress
    else if str_eq state "DOTA_GAMERULES_STATE_POST_GAME"
    then some post_game
    else if str_eq state "DOTA_GAMERULES_STATE_DISCONNECT"
    then some post_game
    else none

pub record MatchMap : Type 0 where
  pub match_id : Option String
  pub game_state : Option String
  pub paused : Option Bool
  pub clock_time : Option ℤ

pub record GsiPayload : Type 0 where
  pub map : Option MatchMap
  pub heroes : List String

-- The winner is `null` in every event.
pub data MatchLifecycleEvent : Type 0 where
  match_started : String → List String → MatchLifecycleEvent
  match_ended : String → MatchLifecycleEvent
  phase_changed : MatchPhase → MatchPhase → MatchLifecycleEvent
  paused resumed : MatchLifecycleEvent
  clock_discontinuity : ℕ → ℕ → MatchLifecycleEvent

-- `clock` and `clockAt` are set together.
pub record TrackedSession : Type 0 where
  pub match_id : Option String
  pub phase : MatchPhase
  pub paused : Bool
  pub clock : Option (ℤ × ℕ)

abbrev pub initial_session : TrackedSession
initial_session = record { match_id = none; phase = idle; paused = false; clock = none }

abbrev pub Observed : Type 0
Observed = TrackedSession × List MatchLifecycleEvent

-- The block on the match's identity, then those on the phase, on the pause and on the clock.
abbrev pub ending : Option String → List MatchLifecycleEvent
ending none = []
ending (some old) = match_ended old ∷ []

abbrev pub is_other : Option String → String → Bool
is_other none id = true
is_other (some old) id = not (str_eq id old)

unfoldable pub see_match : TrackedSession → Option String → List String → Observed
see_match s none heroes = (s, [])
see_match s (some id) heroes =
    if is_other s.match_id id
    then (record s { match_id = some id }, ending s.match_id ++ match_started id heroes ∷ [])
    else (s, [])

abbrev pub ending_if : Bool → Option String → List MatchLifecycleEvent
ending_if false id = []
ending_if true id = ending id

unfoldable pub see_phase : TrackedSession → Option MatchPhase → Observed
see_phase s none = (s, [])
see_phase s (some phase) = if same MatchPhase-discrete phase s.phase then (s, []) else (
  record s { phase = phase },
  phase_changed s.phase phase ∷ ending_if (same MatchPhase-discrete phase post_game) s.match_id,
)

abbrev pub see_pause : TrackedSession → Option Bool → Observed
see_pause s none = (s, [])
see_pause s (some true) = if s.paused then (s, []) else (record s { paused = true }, paused ∷ [])
see_pause s (some false) = if s.paused then (record s { paused = false }, resumed ∷ []) else (s, [])

abbrev pub discontinuity_threshold_ms : ℕ
discontinuity_threshold_ms = 5_000

-- The difference of clock and expected clock is that of `ahead` and `behind`.
abbrev pub ahead : ℤ → ℤ → ℕ
ahead clock previous = (pos_part clock + neg_part previous) * 1000

abbrev pub behind : ℤ → ℤ → ℕ → ℕ
behind clock previous elapsed_ms = (pos_part previous + neg_part clock) * 1000 + elapsed_ms

abbrev pub jumps : ℕ → ℕ → List MatchLifecycleEvent
jumps a b =
    if ltb (a + discontinuity_threshold_ms) b || ltb (b + discontinuity_threshold_ms) a
    then clock_discontinuity a b ∷ []
    else []

abbrev pub jumps_since : Bool → Option (ℤ × ℕ) → ℤ → ℕ → List MatchLifecycleEvent
jumps_since is_paused none clock at = []
jumps_since true (some previous) clock at = []
jumps_since false (some (previous, previous_at)) clock at =
    jumps (ahead clock previous) (behind clock previous (at - previous_at))

unfoldable pub see_clock : TrackedSession → Option ℤ → ℕ → Observed
see_clock s none at = (s, [])
see_clock s (some clock) at =
    (record s { clock = some (clock, at) }, jumps_since s.paused s.clock clock at)

abbrev pub phase_of : Option String → Option MatchPhase
phase_of none = none
phase_of (some state) = phases state

unfoldable pub observe_map : TrackedSession → MatchMap → List String → ℕ → Observed
unfolding see_match see_phase see_clock phases
observe_map s map heroes at =
    let a = see_match s map.match_id heroes in
    let b = see_phase a.0 (phase_of map.game_state) in
    let c = see_pause b.0 map.paused in
    let d = see_clock c.0 map.clock_time at in (d.0, a.1 ++ b.1 ++ c.1 ++ d.1)

abbrev pub observe_in : TrackedSession → Option MatchMap → List String → ℕ → Observed
observe_in s none heroes at = (s, [])
observe_in s (some map) heroes at = observe_map s map heroes at

unfoldable pub observe : TrackedSession → GsiPayload → ℕ → Observed
unfolding observe_map
observe s payload at = observe_in s payload.map payload.heroes at
