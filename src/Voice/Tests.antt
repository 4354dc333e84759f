-- ===== src/Voice/Tests.antt =====
-- The voice session on concrete calls.
use text.Mathlib.Text.{◌==◌ as str_eq}
use riki.Prelude.{
  count, map, ℕ, ◌≡◌, refl, true, false, List, [], ◌∷◌, ◌+◌, Option, none, some, String,
}
use riki.Session.Types.{push}
use riki.Voice.Messages.{
  tool_call, auth, offline, session_lost, VoiceFaultKind-discrete, VoiceFault, ClientSecret,
  session_open, session_close, ready, VoiceSessionState-discrete, fault, event, session_state,
  VoiceConfig, open_directive,
}
use riki.Voice.State.{
  lost, scheduled, VoiceSession, set_state, send, on_ready, cancel_renew_timer, arm, ensure_window,
  stop_renewal, ask_secret,
}
use riki.Voice.Renewal.{is_renewable, attempt_renewal, renew_open, renew, start_open}
use riki.Voice.Updates.{threw, granted, after_sent, after_mint, mint_settles, on_event, on_update}
use riki.Voice.Session.{
  settles_call, close_match, Input, updates, opens_match, closes_match, begins_turn, settles_mint,
  fires_timer, handle, run, initial,
}
use riki.Voice.Session.Mailbox.{on_ready-run}
use riki.Voice.Session.BackOff.{Over, InFlight, asked, told}
use riki.Voice.Session.Failing.{Failure, no_secret, no_answer, all_fail}
use riki.Voice.Session.Attempts.{lost-Over}
use riki.Voice.Session.Answers.{results, is_tool_call, results-run}
use riki.Voice.Session.Losses.{reports, reports-lost}
use riki.Voice.Session.Closed.{Closed, asked_count, opened_count}
use riki.Voice.Session.Closing.{close_match-run}

abbrev cfg : VoiceConfig
cfg = record {
  has_key = true;
  has_timers = true;
  has_tools = false;
  renew_after_ms = 3000000;
  backoff_ms = 2000 ∷ 5000 ∷ [];
  ready_timeout_ms = 20000;
  model = "gpt-realtime-2.1";
  voice = "cedar";
  device_id = none;
  pre_roll_ms = 300;
  transport = "webrtc";
  budget_usd = 2;
}

abbrev turn_name : ℕ → String
turn_name n = "voice_1"

abbrev unreadable : String → String → Option String
unreadable name args = none

abbrev secret : ClientSecret
secret = record { value = "ek_1"; expires_at = 61000; session_id = "sess_1" }

abbrev expiry : VoiceFault
expiry = record {
  kind = session_lost;
  persistent = false;
  message = "session_expired";
  retryable = true;
}

-- A window that loads, and a match whose session is open with its renewal scheduled.
abbrev loading : VoiceSession
loading = record initial { window = true }

abbrev in_match : VoiceSession
in_match = record initial {
  window = true;
  window_ready = true;
  state = ready;
  listeners = 1;
  open_instructions = some "coach";
  renew_timer = some 0;
  timers = (record { number = 0; delay = 3000000; deadline = scheduled }) ∷ [];
  timers_made = 1;
}

abbrev calls_while_loading : List (ℕ × Input)
calls_while_loading =
    (0, opens_match "coach") ∷ (1, settles_mint 0 (granted secret)) ∷ (2, begins_turn push) ∷ []

on_ready-run_example :
    on_ready (run cfg turn_name unreadable loading calls_while_loading)
    ≡ run cfg turn_name unreadable (on_ready loading) calls_while_loading
on_ready-run_example =
    on_ready-run cfg turn_name unreadable loading calls_while_loading refl
      (record { stands = refl; delivered = λ r. refl })

abbrev failures : List Failure
failures = no_answer secret ∷ no_secret offline "no network" ∷ []

lost-Over_example :
    let after =
      all_fail cfg turn_name unreadable 7
        (handle cfg turn_name unreadable in_match 7 (updates (event (fault expiry))))
        (no_secret auth "refused" ∷ failures) in
    Over after × (asked after ≡ 3 + asked in_match) × (told after ≡ 1 + told in_match)
unfolding is_renewable VoiceFaultKind-discrete
lost-Over_example =
    lost-Over cfg turn_name unreadable 7 in_match "coach" expiry (no_secret auth "refused") failures
      refl refl refl refl refl refl refl

reports-lost_example :
    let after = run cfg turn_name unreadable in_match (reports 7 (expiry ∷ expiry ∷ [])) in
    (after ≡ run cfg turn_name unreadable in_match (reports 7 (expiry ∷ [])))
    × InFlight "coach" lost 0 after
    × (asked after ≡ 1 + asked in_match)
    × (told after ≡ told in_match)
unfolding is_renewable VoiceFaultKind-discrete
reports-lost_example =
    reports-lost cfg turn_name unreadable 7 in_match "coach" expiry (expiry ∷ []) refl refl refl
      refl refl refl

abbrev tool_calls : List (ℕ × Input)
tool_calls =
    (1, updates (tool_call "call_1" "world_at" "{}"))
    ∷ (2, updates (tool_call "call_2" "enemy_items" "{}"))
    ∷ (3, settles_call 1 (threw "no state"))
    ∷ []

abbrev with_tools : VoiceConfig
with_tools = record cfg { has_tools = true }

results-run_example :
    results (λ id. str_eq id "call_2") (run with_tools turn_name unreadable loading tool_calls)
    ≡ count (is_tool_call (λ id. str_eq id "call_2")) (map (λ (now, i). i) tool_calls)
      + results (λ id. str_eq id "call_2") loading
results-run_example =
    results-run (λ id. str_eq id "call_2") with_tools turn_name unreadable loading tool_calls refl
      (record { stands = refl; delivered = λ r. refl })

abbrev after_the_match : List (ℕ × Input)
after_the_match =
    (9, updates (event (fault expiry)))
    ∷ (10, fires_timer 0)
    ∷ (11, updates (session_state ready))
    ∷ []

close_match-run_example :
    Closed
      (asked_count in_match)
      (opened_count in_match)
      (run cfg turn_name unreadable in_match ((8, closes_match "over") ∷ after_the_match))
close_match-run_example =
    close_match-run cfg turn_name unreadable in_match 8 "over" after_the_match refl refl refl

-- A renewal's secret that comes after the match is closed: a session is opened after the close.
abbrev closed_while_minting : List (ℕ × Input)
closed_while_minting =
    (7, updates (event (fault expiry)))
    ∷ (8, closes_match "over")
    ∷ (9, settles_mint 0 (granted secret))
    ∷ []

opens_after_close :
    (run cfg turn_name unreadable in_match closed_while_minting).sent
    ≡ session_close "over" ∷ session_open (open_directive cfg 9 "coach" secret) ∷ []
unfolding run handle on_update on_event is_renewable VoiceFaultKind-discrete renew renew_open
    attempt_renewal set_state VoiceSessionState-discrete cancel_renew_timer ask_secret close_match
    stop_renewal send mint_settles after_mint after_sent arm
opens_after_close = refl

-- Two matches that are opened while the secrets are on their way, which come in the other order.
abbrev two_matches : List (ℕ × Input)
two_matches =
    (1, opens_match "first")
    ∷ (2, opens_match "second")
    ∷ (3, settles_mint 1 (granted secret))
    ∷ (4, settles_mint 0 (granted secret))
    ∷ []

keeps_first : (run cfg turn_name unreadable in_match two_matches).open_instructions ≡ some "first"
unfolding run handle start_open set_state VoiceSessionState-discrete ensure_window stop_renewal
    cancel_renew_timer ask_secret send mint_settles after_mint after_sent
keeps_first = refl
