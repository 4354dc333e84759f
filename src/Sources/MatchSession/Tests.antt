-- ===== src/Sources/MatchSession/Tests.antt =====
-- A tracker of two matches.
use riki.Prelude.{◌≡◌, refl, false, [], ◌∷◌, none, some, String, ℤ, pos, same}
use riki.Sources.MatchSession.{
  MatchPhase-discrete, idle, in_progress, post_game, GsiPayload, match_started, match_ended,
  phase_changed, clock_discontinuity, TrackedSession, initial_session, observe, observe_map,
  see_match, see_phase, see_clock, phases,
}
use riki.Sources.MatchSession.Edges.{observe_again, ended_twice}

abbrev playing : String → ℤ → GsiPayload
playing id clock = record {
  map = some (record {
    match_id = some id;
    game_state = some "DOTA_GAMERULES_STATE_GAME_IN_PROGRESS";
    paused = some false;
    clock_time = some clock;
  });
  heroes = "lion" ∷ [];
}

abbrev underway : TrackedSession
underway = (observe initial_session (playing "7001" (pos 10)) 1_000).0

first_payload :
    (observe initial_session (playing "7001" (pos 10)) 1_000).1
    ≡ match_started "7001" ("lion" ∷ []) ∷ phase_changed idle in_progress ∷ []
unfolding observe observe_map see_match see_phase see_clock phases MatchPhase-discrete
first_payload = refl

on_time : (observe underway (playing "7001" (pos 12)) 3_000).1 ≡ []
unfolding observe observe_map see_match see_phase see_clock phases MatchPhase-discrete
on_time = refl

jumped :
    (observe underway (playing "7001" (pos 60)) 3_000).1 ≡ clock_discontinuity 60_000 12_000 ∷ []
unfolding observe observe_map see_match see_phase see_clock phases MatchPhase-discrete
jumped = refl

observe_again_example : observe underway (playing "7001" (pos 10)) 1_000 ≡ (underway, [])
observe_again_example = observe_again initial_session (playing "7001" (pos 10)) 1_000

abbrev late_game : TrackedSession
late_game = record { match_id = some "7001"; phase = in_progress; paused = false; clock = none }

phases_differ : same MatchPhase-discrete post_game in_progress ≡ false
unfolding MatchPhase-discrete
phases_differ = refl

ended_twice_example :
    ((see_phase late_game (some post_game)).1
      ≡ phase_changed in_progress post_game ∷ match_ended "7001" ∷ [])
    × ((see_match (see_phase late_game (some post_game)).0 (some "7002") []).1
        ≡ match_ended "7001" ∷ match_started "7002" [] ∷ [])
ended_twice_example = ended_twice late_game "7001" "7002" [] refl phases_differ refl
