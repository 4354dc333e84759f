-- ===== src/Sources/MatchSession/Edges.antt =====
-- The edges that the tracker reports.
use text.Mathlib.Text.{◌==◌ as str_eq}
use text.Mathlib.TextEquality.{eq_iff}
use riki.Prelude.{
  ℕ, ◌-◌, ◌≡◌, inl, inr, refl, ◌∙◌, ap, sym, Bool, true, false, not, List, [], ◌∷◌, Option, none,
  some, String, ℤ, arith, same, same_self, Bool-cases,
}
use riki.Sources.MatchSession.{
  MatchPhase, MatchPhase-discrete, MatchMap, GsiPayload, match_ended, TrackedSession, is_other,
  see_match, see_phase, see_pause, see_clock, jumps_since, jumps, ahead, behind, phase_of,
  observe_map, observe_in, observe, match_started, phase_changed, post_game,
}

same_str : (a : String) → str_eq a a ≡ true
same_str a = ground (arith, eq_iff a a)

match_quiet :
    (s s0 : TrackedSession) (m : Option String) (heroes : List String)
    → s.match_id ≡ (see_match s0 m heroes).0.match_id
    → see_match s m heroes ≡ (s, [])
unfolding see_match
match_quiet s s0 none heroes e = refl
match_quiet s s0 (some id) heroes e = elim (Bool-cases (is_other s0.match_id id)) [
  | inl t ↦
      let now_id : s.match_id ≡ some id = rw t at e in
      let quiet : is_other s.match_id id ≡ false =
        ap (λ x. is_other x id) now_id ∙ ap not (same_str id) in
      rw quiet refl
  | inr t ↦
      let as_before : s.match_id ≡ s0.match_id = rw t at e in
      let quiet : is_other s.match_id id ≡ false = ap (λ x. is_other x id) as_before ∙ t in
      rw quiet refl
]

phase_quiet :
    (s s0 : TrackedSession) (p : Option MatchPhase)
    → s.phase ≡ (see_phase s0 p).0.phase
    → see_phase s p ≡ (s, [])
unfolding see_phase
phase_quiet s s0 none e = refl
phase_quiet s s0 (some phase) e = elim (Bool-cases (same MatchPhase-discrete phase s0.phase)) [
  | inl t ↦
      let as_before : s.phase ≡ s0.phase = rw t at e in
      let quiet : same MatchPhase-discrete phase s.phase ≡ true =
        ap (same MatchPhase-discrete phase) as_before ∙ t in
      rw quiet refl
  | inr t ↦
      let now_phase : s.phase ≡ phase = rw t at e in
      let quiet : same MatchPhase-discrete phase s.phase ≡ true =
        ap (same MatchPhase-discrete phase) now_phase ∙ same_self MatchPhase-discrete phase in
      rw quiet refl
]

pause_quiet :
    (s s0 : TrackedSession) (p : Option Bool)
    → s.paused ≡ (see_pause s0 p).0.paused
    → see_pause s p ≡ (s, [])
pause_quiet s s0 none e = refl
pause_quiet s s0 (some true) e = elim (Bool-cases s0.paused) [
  | inl t ↦ let still : s.paused ≡ true = rw t at e in rw still refl
  | inr t ↦ let still : s.paused ≡ true = rw t at e in rw still refl
]
pause_quiet s s0 (some false) e = elim (Bool-cases s0.paused) [
  | inl t ↦ let still : s.paused ≡ false = rw t at e in rw still refl
  | inr t ↦ let still : s.paused ≡ false = rw t at e in rw still refl
]

no_jump :
    (is_paused : Bool) (clock : ℤ) (at : ℕ) → jumps_since is_paused (some (clock, at)) clock at ≡ []
no_jump true clock at = refl
no_jump false clock at =
    let even : behind clock clock (at - at) ≡ ahead clock clock = omega arith in
    ap (jumps (ahead clock clock)) even ∙ still (ahead clock clock)
  where
    still : (n : ℕ) → jumps n n ≡ []
    still n = ground arith

clock_quiet :
    (s s0 : TrackedSession) (c : Option ℤ) (at : ℕ)
    → s.clock ≡ (see_clock s0 c at).0.clock
    → see_clock s c at ≡ (s, [])
unfolding see_clock
clock_quiet s s0 none at e = refl
clock_quiet s s0 (some clock) at e =
    ap (λ x. (record s { clock = some (clock, at) }, jumps_since s.paused x clock at)) e
    ∙ ap (λ x. (record s { clock = some (clock, at) }, x)) (no_jump s.paused clock at)
    ∙ ap (λ x. (record s { clock = x }, [])) (sym e)

phase_keeps : (s : TrackedSession) (p : Option MatchPhase) → (see_phase s p).0.match_id ≡ s.match_id
unfolding see_phase
phase_keeps s none = refl
phase_keeps s (some phase) = elim (Bool-cases (same MatchPhase-discrete phase s.phase)) [
  | inl t ↦ rw t refl
  | inr t ↦ rw t refl
]

pause_keeps :
    (s : TrackedSession) (p : Option Bool)
    → ((see_pause s p).0.match_id ≡ s.match_id) × ((see_pause s p).0.phase ≡ s.phase)
pause_keeps s none = (refl, refl)
pause_keeps s (some true) = elim (Bool-cases s.paused) [
  | inl t ↦ rw t (refl, refl)
  | inr t ↦ rw t (refl, refl)
]
pause_keeps s (some false) = elim (Bool-cases s.paused) [
  | inl t ↦ rw t (refl, refl)
  | inr t ↦ rw t (refl, refl)
]

clock_keeps :
    (s : TrackedSession) (c : Option ℤ) (at : ℕ)
    → ((see_clock s c at).0.match_id ≡ s.match_id)
      × ((see_clock s c at).0.phase ≡ s.phase)
      × ((see_clock s c at).0.paused ≡ s.paused)
unfolding see_clock
clock_keeps s none at = (refl, refl, refl)
clock_keeps s (some clock) at = (refl, refl, refl)

-- Where each of the four blocks is quiet, so is the whole.
all_quiet :
    (s : TrackedSession) (map : MatchMap) (heroes : List String) (at : ℕ)
    → see_match s map.match_id heroes ≡ (s, [])
    → see_phase s (phase_of map.game_state) ≡ (s, [])
    → see_pause s map.paused ≡ (s, [])
    → see_clock s map.clock_time at ≡ (s, [])
    → observe_map s map heroes at ≡ (s, [])
unfolding observe_map
all_quiet s map heroes at a b c d = rw (observe_map, a, b, c, d) refl

quiet_after :
    (s : TrackedSession) (map : MatchMap) (heroes : List String) (at : ℕ)
    → observe_map (observe_map s map heroes at).0 map heroes at
      ≡ ((observe_map s map heroes at).0, [])
unfolding observe_map
quiet_after s map heroes at =
    let a = see_match s map.match_id heroes in
    let b = see_phase a.0 (phase_of map.game_state) in
    let c = see_pause b.0 map.paused in
    let d = see_clock c.0 map.clock_time at in
    let (from_d, phase_d, pause_d) = clock_keeps c.0 map.clock_time at in
    let (from_c, phase_c) = pause_keeps b.0 map.paused in
    all_quiet d.0 map heroes at
      (match_quiet d.0 s map.match_id heroes
        (from_d ∙ from_c ∙ phase_keeps a.0 (phase_of map.game_state)))
      (phase_quiet d.0 a.0 (phase_of map.game_state) (phase_d ∙ phase_c))
      (pause_quiet d.0 b.0 map.paused pause_d) (clock_quiet d.0 c.0 map.clock_time at refl)

quiet_in :
    (s : TrackedSession) (map : Option MatchMap) (heroes : List String) (at : ℕ)
    → observe_in (observe_in s map heroes at).0 map heroes at ≡ ((observe_in s map heroes at).0, [])
quiet_in s none heroes at = refl
quiet_in s (some map) heroes at = quiet_after s map heroes at

-- A payload that is observed a second time at the same instant reports nothing, and leaves the
-- tracker as it is, whatever the tracker had seen before.
pub observe_again :
    (s : TrackedSession) (payload : GsiPayload) (at : ℕ)
    → observe (observe s payload at).0 payload at ≡ ((observe s payload at).0, [])
unfolding observe
observe_again s payload at = quiet_in s payload.map payload.heroes at

-- After a match has ended by its phase, the tracker still has its id: the payload of the next match
-- makes it report the end of the match before once more.
pub ended_twice :
    (s : TrackedSession) (old id : String) (heroes : List String)
    → s.match_id ≡ some old
    → same MatchPhase-discrete post_game s.phase ≡ false
    → str_eq id old ≡ false
    → ((see_phase s (some post_game)).1 ≡ phase_changed s.phase post_game ∷ match_ended old ∷ [])
      × ((see_match (see_phase s (some post_game)).0 (some id) heroes).1
          ≡ match_ended old ∷ match_started id heroes ∷ [])
unfolding see_phase see_match
ended_twice s old id heroes e f g =
    rw (f, e, g, same_self MatchPhase-discrete post_game) (refl, refl)
