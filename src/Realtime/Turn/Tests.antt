-- ===== src/Realtime/Turn/Tests.antt =====
-- Turn-taking on concrete calls.
use riki.Prelude.{ℕ, ◌+◌, ◌≡◌, refl, false, List, [], ◌∷◌, none, some, String, count}
use text.Mathlib.Text.{◌==◌ as str_eq}
use riki.Realtime.Turn.{
  webrtc, websocket, Turns, TurnContext, release, cancel, Playing, Sent, response_create,
  truncate_item, TurnCall, begins, ends, resumes, interrupts, aborts, answers, end_turn, interrupt,
  truncate, truncation, run,
}
use riki.Realtime.Turn.Sends.{asks, is_output, is_answer}
use riki.Realtime.Turn.Traces.{run-outputs, stopped_stays_silent, abort_keeps_waiting}

abbrev no_names : ℕ → String
no_names n = "turn"

abbrev briefing : TurnContext
briefing = record { turn_id = "turn_1"; snapshot_text = "You are dead." }

-- A response plays, and one more turn has been released and waits for the end of speech.
abbrev speaking : Turns
speaking = record {
  active = none;
  cancelled = false;
  capture_open = false;
  turn_counter = 1;
  waiting = briefing ∷ [];
  sent = response_create ∷ [];
}

abbrev half_said : Playing
half_said = record { current_item = some "item_4"; audible_ms = 1200 }

abbrev gesture : List TurnCall
gesture =
    begins (some "turn_7")
    ∷ answers "call_1" "{}"
    ∷ ends "turn_7" release briefing
    ∷ answers "call_2" "{}"
    ∷ []

-- A stale id closes the gate and sends nothing.
stale_end : (end_turn speaking "turn_0" cancel briefing).sent ≡ response_create ∷ []
unfolding end_turn
stale_end = refl

-- Only on a websocket does an interruption truncate.
who_truncates :
    ((interrupt webrtc speaking half_said).sent ≡ response_create ∷ [])
    × ((interrupt websocket speaking half_said).sent
        ≡ response_create ∷ truncate_item "item_4" 1200 ∷ Sent.truncated "item_4" 1200 ∷ [])
unfolding interrupt truncate truncation
who_truncates = (refl, refl)

run-outputs_example :
    count (is_output (λ id output. str_eq id "call_1")) (run no_names webrtc speaking gesture).sent
    ≡ count (is_output (λ id output. str_eq id "call_1")) speaking.sent
      + count (is_answer (λ id output. str_eq id "call_1")) gesture
run-outputs_example = run-outputs no_names webrtc (λ id output. str_eq id "call_1") speaking gesture

stopped_stays_silent_example :
    (count asks (run no_names webrtc speaking (aborts half_said ∷ gesture)).sent
      ≡ count asks speaking.sent)
    × (count asks (run no_names webrtc speaking (interrupts half_said ∷ gesture)).sent
        ≡ count asks speaking.sent)
stopped_stays_silent_example = stopped_stays_silent no_names webrtc speaking half_said gesture refl

abbrev after_escape : Turns
after_escape = run no_names webrtc speaking (aborts half_said ∷ resumes ∷ [])

abort_keeps_waiting_example :
    (count asks after_escape.sent ≡ count asks speaking.sent + 1) × (after_escape.cancelled ≡ false)
abort_keeps_waiting_example =
    abort_keeps_waiting no_names webrtc speaking half_said briefing [] refl
