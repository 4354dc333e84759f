-- ===== src/Voice/Session.antt =====
-- main/voice/session.ts: what the session does with the calls that come from the app, and all its inputs.
-- An await that ends is an input with the place of what waited.
pub mod Answers
pub mod BackOff
pub mod Attempts
pub mod Closed
pub mod Closing
pub mod Losses
pub mod Failing
pub mod Delivery
pub mod Mailbox
pub mod Queue
use riki.Prelude.{
  ℕ, zero, suc, ◌+◌, Bool, true, false, List, [], ◌∷◌, ◌++◌, Option, none, some, String, ◌==◌,
  if◌then◌else◌, same,
}
use riki.Session.Types.{CaptureMode}
use riki.Realtime.Turn.{TurnEndReason, cancel}
use riki.Voice.Messages.{
  VoiceFaultKind, ClientSecret, result, not_wired, not_understood, could_not_answer, VoiceDirective,
  session_open, session_close, turn_begin, turn_end, turn_speak, command_abort, level_enable,
  tool_result, VoiceSessionState, idle, ready, degraded, unavailable, VoiceSessionState-discrete,
  WindowEvent, level, fault, passed, timed_level, raised, relayed, VoiceUpdate, voice_ready, event,
  session_state, tool_call, tool_rejected, window_applied, VoiceConfig, open_directive,
}
use riki.Voice.State.{
  age, lost, opened, said, minutes_old, attempts, sent_unawaited, not_ready_within, opening,
  renewing_for, Mint, Deadline, scheduled, awaiting_ready, retry, Timer, Call, answered, dispatched,
  window_closed, reports_fault, reports_renewal, Purpose, reports_speaking, reports_rejection,
  reports_problem, emits, dispatches, VoiceSession, report, set_state, raise, send, on_ready,
  or_lost, without_timer, cancel_renew_timer, arm, stop_renewal,
}
use riki.Voice.Renewal.{
  arm_scheduled_renewal, is_renewable, attempt_renewal, renew, back_off, start_open,
}
use riki.Voice.Updates.{
  MintResult, CallResult, take_at, end_renewal, on_session_state, after_sent, after_failure,
  after_mint, mint_settles, on_event, answer_parsed, answer_tool_call, on_update, answer_of,
  call_settles, granted, refused, returned, threw,
}

unfoldable pub close_match : VoiceSession → String → VoiceSession
unfolding set_state send stop_renewal
close_match s reason = set_state (send (stop_renewal s) (session_close reason)) idle

-- `dispose` up to the await, and from there on.
unfoldable pub start_dispose : VoiceSession → VoiceSession
unfolding close_match
start_dispose s = record (close_match (record s { disposed = true }) "app quitting") {
  disposing = true;
}

unfoldable pub dispose : VoiceSession → VoiceSession
unfolding start_dispose
dispose s = if s.disposed then s else start_dispose s

unfoldable pub finish_dispose : VoiceSession → VoiceSession
unfolding set_state
finish_dispose s =
    if s.disposing
    then set_state
        (report
          (record s {
            window = false;
            window_ready = false;
            queued = [];
            listeners = 0;
            disposing = false;
          })
          (if s.window then window_closed ∷ [] else []))
        idle
    else s

unfoldable pub speak_now : VoiceSession → String → String → VoiceSession
unfolding send
speak_now s turn text = send (report s (reports_speaking turn true ∷ [])) (turn_speak turn text)

-- A turn that is cancelled is not reported.
abbrev pub note_end : VoiceSession → String → TurnEndReason → VoiceSession
note_end s turn cancel = s
note_end s turn reason = report s (reports_speaking turn false ∷ [])

unfoldable pub end_turn : VoiceSession → String → TurnEndReason → String → VoiceSession
unfolding send
end_turn s turn reason text = send (note_end s turn reason) (turn_end turn reason text)

-- The timer's callback: it forgets the timer that is armed, whichever that is.
unfoldable pub fire : VoiceConfig → VoiceSession → Deadline → VoiceSession
unfolding renew back_off attempt_renewal
fire cfg s scheduled =
    renew cfg (record s { renew_timer = none }) age (minutes_old cfg.renew_after_ms)
fire cfg s (awaiting_ready instructions) =
    back_off cfg (record s { renew_timer = none }) instructions
      (not_ready_within cfg.ready_timeout_ms) true
fire cfg s (retry instructions) = attempt_renewal (record s { renew_timer = none }) instructions

-- The timer with this number, if it runs.
abbrev pub deadline_of : ℕ → List Timer → Option Deadline
deadline_of n [] = none
deadline_of n (t ∷ ts) =
    let rest = deadline_of n ts in if t.number == n then some t.deadline else rest

unfoldable pub timer_fires : VoiceConfig → VoiceSession → ℕ → Option Deadline → VoiceSession
unfolding fire
timer_fires cfg s n none = s
timer_fires cfg s n (some deadline) =
    fire cfg (record s { timers = without_timer (some n) s.timers }) deadline

pub data Input : Type 0 where
  updates : VoiceUpdate → Input
  opens_match closes_match : String → Input
  sets_levels : Bool → Input
  speaks_now : String → String → Input
  begins_turn : CaptureMode → Input
  ends_turn : String → TurnEndReason → String → Input
  aborts subscribes unsubscribes disposes resumes_dispose : Input
  settles_mint : ℕ → MintResult → Input
  settles_call : ℕ → CallResult → Input
  fires_timer : ℕ → Input

abbrev pub pred : ℕ → ℕ
pred zero = zero
pred (suc n) = n

-- `turn_name n` is the text `voice_n`.
unfoldable pub begin_turn : (ℕ → String) → VoiceSession → CaptureMode → VoiceSession
unfolding send
begin_turn turn_name s mode =
    send (record s { turn_counter = s.turn_counter + 1 })
      (turn_begin (turn_name (s.turn_counter + 1)) mode)

module _ (cfg : VoiceConfig) (turn_name : ℕ → String)
    (unreadable : String → String → Option String) where
  unfoldable pub handle : VoiceSession → ℕ → Input → VoiceSession
  unfolding on_update start_open close_match send speak_now begin_turn end_turn dispose
      finish_dispose mint_settles call_settles timer_fires
  handle s now (updates u) = on_update cfg now unreadable s u
  handle s now (opens_match instructions) = start_open cfg s instructions
  handle s now (closes_match reason) = close_match s reason
  handle s now (sets_levels on) = send s (level_enable on)
  handle s now (speaks_now turn text) = speak_now s turn text
  handle s now (begins_turn mode) = begin_turn turn_name s mode
  handle s now (ends_turn turn reason text) = end_turn s turn reason text
  handle s now aborts = send s command_abort
  handle s now subscribes = record s { listeners = s.listeners + 1 }
  handle s now unsubscribes = record s { listeners = pred s.listeners }
  handle s now disposes = dispose s
  handle s now resumes_dispose = finish_dispose s
  handle s now (settles_mint i r) = mint_settles cfg now s (take_at i s.minting) r
  handle s now (settles_call i r) = call_settles s (take_at i s.calls) r
  handle s now (fires_timer n) = timer_fires cfg s n (deadline_of n s.timers)

  unfoldable pub run : VoiceSession → List (ℕ × Input) → VoiceSession
  run s [] = s
  run s ((now, i) ∷ is) = run (handle s now i) is

-- The session before anything was called.
abbrev pub initial : VoiceSession
initial = record {
  window = false;
  window_ready = false;
  queued = [];
  sent = [];
  state = idle;
  disposed = false;
  disposing = false;
  listeners = 0;
  open_instructions = none;
  renewing = false;
  renew_attempt = 0;
  renew_reason = none;
  renew_timer = none;
  timers = [];
  timers_made = 0;
  minting = [];
  calls = [];
  turn_counter = 0;
  out = [];
}
