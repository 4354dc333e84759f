-- ===== src/Voice/Session/Queue.antt =====
-- What the calls make of the window and of the directives that wait.
use riki.Prelude.{
  ℕ, ◌+◌, ◌≡◌, sym, subst, refl, Bool, true, false, List, [], Option, none, some, String,
  Option-cases, arith,
}
use riki.Realtime.Turn.{TurnEndReason, release, latch_tap, timeout, cancel}
use riki.World.Timeline.{get_elem?}
use riki.Voice.Messages.{
  VoiceFaultKind, VoiceDirective, session_close, command_abort, level_enable, VoiceSessionState,
  idle, WindowEvent, level, fault, passed, voice_ready, event, session_state, tool_call,
  tool_rejected, window_applied, VoiceConfig,
}
use riki.Voice.State.{
  RenewalReason, age, lost, Detail, said, Purpose, opening, renewing_for, Mint, Deadline, scheduled,
  awaiting_ready, retry, Call, VoiceSession, report, set_state, raise, send, on_ready,
  without_timer, cancel_renew_timer, arm, ensure_window, stop_renewal, ask_secret,
}
use riki.Voice.Renewal.{
  arm_scheduled_renewal, attempt_renewal, renew_open, renew, give_up, back_off_after, back_off,
  start_open,
}
use riki.Voice.Updates.{
  MintResult, granted, refused, after_sent, after_failure, CallResult, take_at, after_mint,
  mint_settles, on_session_state, end_renewal, on_event, answer_parsed, answer_tool_call, on_update,
  answer_of, call_settles,
}
use riki.Voice.Session.{
  close_match, note_end, start_dispose, dispose, speak_now, end_turn, begin_turn, fire, deadline_of,
  timer_fires, Input, updates, opens_match, closes_match, sets_levels, speaks_now, begins_turn,
  ends_turn, aborts, subscribes, unsubscribes, disposes, resumes_dispose, settles_mint,
  settles_call, fires_timer, handle,
}

-- The part of the state that directives and the answers of tool calls wait in.
abbrev pub Mailbox : Type 0
Mailbox = Bool × Bool × List VoiceDirective × List VoiceDirective × List Call

abbrev pub mailbox : VoiceSession → Mailbox
mailbox s = (s.window, s.window_ready, s.queued, s.sent, s.calls)

-- The window stands, and nothing waits once it is ready.
pub record Holding (m : Mailbox) : Type 0 where
  pub stands : m.0 ≡ true
  pub delivered : m.1 ≡ true → m.2 ≡ []

abbrev pub Holds : VoiceSession → Type 0
Holds s = Holding (mailbox s)

kept : {m n : Mailbox} → n ≡ m → Holding m → Holding n
kept e h = subst Holding (sym e) h

send-Holds : (s : VoiceSession) (d : VoiceDirective) → Holds s → Holds (send s d)
unfolding send
send-Holds s d h = record {
  stands = ground (arith, h.stands);
  delivered = ground (arith, h.stands, h.delivered);
}

pub mailbox-set_state :
    (s : VoiceSession) (next : VoiceSessionState) → mailbox (set_state s next) ≡ mailbox s
unfolding set_state
mailbox-set_state s next = ground arith

mailbox-attempt_renewal :
    (s : VoiceSession) (instructions : String)
    → mailbox (attempt_renewal s instructions) ≡ mailbox s
unfolding attempt_renewal set_state cancel_renew_timer ask_secret
mailbox-attempt_renewal s instructions = ground arith

module _ (cfg : VoiceConfig) where
  mailbox-back_off :
      (s : VoiceSession) (instructions : String) (detail : Detail) (retryable : Bool)
      → mailbox (back_off cfg s instructions detail retryable) ≡ mailbox s
  unfolding back_off back_off_after give_up set_state raise arm
  mailbox-back_off s instructions detail retryable =
      ground (arith, Option-cases (get_elem? cfg.backoff_ms s.renew_attempt))

  mailbox-renew :
      (s : VoiceSession) (reason : RenewalReason) (detail : Detail)
      → mailbox (renew cfg s reason detail) ≡ mailbox s
  unfolding renew renew_open attempt_renewal set_state cancel_renew_timer ask_secret
  mailbox-renew s reason detail = ground (arith, Option-cases s.open_instructions)

  pub mailbox-start_open :
      (s : VoiceSession) (instructions : String)
      → s.window ≡ true
      → mailbox (start_open cfg s instructions) ≡ mailbox s
  unfolding start_open set_state ensure_window stop_renewal cancel_renew_timer ask_secret
  mailbox-start_open s instructions w = ground (arith, w)

  pub mailbox-on_session_state :
      (s : VoiceSession) (next : VoiceSessionState)
      → mailbox (on_session_state cfg s next) ≡ mailbox s
  unfolding on_session_state set_state end_renewal arm_scheduled_renewal arm cancel_renew_timer
  mailbox-on_session_state s next = ground arith

  pub mailbox-on_event :
      (now : ℕ) (s : VoiceSession) (e : WindowEvent) → mailbox (on_event cfg now s e) ≡ mailbox s
  unfolding on_event
  mailbox-on_event now s (level source value) = refl
  mailbox-on_event now s (fault f) = ground (arith, mailbox-renew s lost (said f.message))
  mailbox-on_event now s (passed text) = refl

  mailbox-fire : (s : VoiceSession) (d : Deadline) → mailbox (fire cfg s d) ≡ mailbox s
  unfolding fire
  mailbox-fire s scheduled = mailbox-renew (record s { renew_timer = none }) age _
  mailbox-fire s (awaiting_ready instructions) =
      mailbox-back_off (record s { renew_timer = none }) instructions _ true
  mailbox-fire s (retry instructions) =
      mailbox-attempt_renewal (record s { renew_timer = none }) instructions

  pub mailbox-timer_fires :
      (s : VoiceSession) (n : ℕ) (found : Option Deadline)
      → mailbox (timer_fires cfg s n found) ≡ mailbox s
  unfolding timer_fires
  mailbox-timer_fires s n none = refl
  mailbox-timer_fires s n (some deadline) =
      mailbox-fire (record s { timers = without_timer (some n) s.timers }) deadline

  pub mailbox-after_sent :
      (s : VoiceSession) (p : Purpose) (instructions : String)
      → mailbox (after_sent cfg s p instructions) ≡ mailbox s
  unfolding after_sent arm
  mailbox-after_sent s opening instructions = refl
  mailbox-after_sent s (renewing_for reason) instructions = ground arith

  pub mailbox-after_failure :
      (s : VoiceSession) (p : Purpose) (instructions : String) (kind : VoiceFaultKind)
      (message : String) (retryable : Bool)
      → mailbox (after_failure cfg s p instructions kind message retryable) ≡ mailbox s
  unfolding after_failure set_state raise
  mailbox-after_failure s opening instructions kind message retryable = ground arith
  mailbox-after_failure s (renewing_for reason) instructions kind message retryable =
      mailbox-back_off s instructions (said message) retryable

  mint_settles-Holds :
      (now : ℕ) (s : VoiceSession) (taken : Option (Mint × List Mint)) (r : MintResult)
      → Holds s
      → Holds (mint_settles cfg now s taken r)
  unfolding mint_settles after_mint
  mint_settles-Holds now s none r h = h
  mint_settles-Holds now s (some (m, rest)) (refused kind message retryable) h =
      kept
        (mailbox-after_failure (record s { minting = rest }) m.purpose m.instructions kind message
          retryable)
        h
  mint_settles-Holds now s (some (m, rest)) (granted secret) h =
      kept (mailbox-after_sent _ m.purpose m.instructions)
        (send-Holds (record s { minting = rest }) _ h)

  answer_tool_call-Holds :
      (now : ℕ) (unreadable : String → String → Option String) (s : VoiceSession)
      (call name args : String)
      → Holds s
      → Holds (answer_tool_call cfg now unreadable s call name args)
  unfolding answer_tool_call answer_parsed
  answer_tool_call-Holds now unreadable s call name args h = record {
    stands = ground (arith, h.stands, Option-cases (unreadable name args));
    delivered = ground (arith, h.delivered, Option-cases (unreadable name args));
  }

call_settles-Holds :
    (s : VoiceSession) (taken : Option (Call × List Call)) (r : CallResult)
    → Holds s
    → Holds (call_settles s taken r)
unfolding call_settles
call_settles-Holds s none r h = h
call_settles-Holds s (some (c, rest)) r h =
    send-Holds (record s { calls = rest }) (answer_of c r)
      (record { stands = h.stands; delivered = h.delivered })

close_match-Holds : (s : VoiceSession) (reason : String) → Holds s → Holds (close_match s reason)
unfolding close_match stop_renewal cancel_renew_timer
close_match-Holds s reason h =
    kept (mailbox-set_state _ idle) (send-Holds (stop_renewal s) (session_close reason) h)

dispose-Holds : (s : VoiceSession) → Holds s → Holds (dispose s)
unfolding dispose start_dispose
dispose-Holds s h =
    ground (arith, h, close_match-Holds (record s { disposed = true }) "app quitting" h)

end_turn-Holds :
    (s : VoiceSession) (turn : String) (reason : TurnEndReason) (text : String)
    → Holds s
    → Holds (end_turn s turn reason text)
unfolding end_turn
end_turn-Holds s turn cancel text h = send-Holds s _ h
end_turn-Holds s turn release text h = send-Holds (note_end s turn release) _ h
end_turn-Holds s turn latch_tap text h = send-Holds (note_end s turn latch_tap) _ h
end_turn-Holds s turn timeout text h = send-Holds (note_end s turn timeout) _ h

-- Every input but the end of `dispose`, which closes the window.
abbrev pub stays_open : Input → Bool
stays_open resumes_dispose = false
stays_open i = true

module _ (cfg : VoiceConfig) (turn_name : ℕ → String)
    (unreadable : String → String → Option String) where
  pub handle-Holds :
      (s : VoiceSession) (now : ℕ) (i : Input)
      → stays_open i ≡ true
      → Holds s
      → Holds (handle cfg turn_name unreadable s now i)
  unfolding handle on_update on_ready speak_now begin_turn
  handle-Holds s now (updates voice_ready) k h = record { stands = h.stands; delivered = λ r. refl }
  handle-Holds s now (updates (event e)) k h = kept (mailbox-on_event cfg now s e) h
  handle-Holds s now (updates (session_state next)) k h =
      kept (mailbox-on_session_state cfg s next) h
  handle-Holds s now (updates (tool_call call name args)) k h =
      answer_tool_call-Holds cfg now unreadable s call name args h
  handle-Holds s now (updates (tool_rejected name reason)) k h = kept refl h
  handle-Holds s now (updates window_applied) k h = h
  handle-Holds s now (opens_match instructions) k h =
      kept (mailbox-start_open cfg s instructions h.stands) h
  handle-Holds s now (closes_match reason) k h = close_match-Holds s reason h
  handle-Holds s now (sets_levels on) k h = send-Holds s (level_enable on) h
  handle-Holds s now (speaks_now turn text) k h = send-Holds (report s _) _ h
  handle-Holds s now (begins_turn mode) k h =
      send-Holds (record s { turn_counter = s.turn_counter + 1 }) _ h
  handle-Holds s now (ends_turn turn reason text) k h = end_turn-Holds s turn reason text h
  handle-Holds s now aborts k h = send-Holds s command_abort h
  handle-Holds s now subscribes k h = kept refl h
  handle-Holds s now unsubscribes k h = kept refl h
  handle-Holds s now disposes k h = dispose-Holds s h
  handle-Holds s now resumes_dispose k h = absurd (ground arith)
  handle-Holds s now (settles_mint i r) k h = mint_settles-Holds cfg now s (take_at i s.minting) r h
  handle-Holds s now (settles_call i r) k h = call_settles-Holds s (take_at i s.calls) r h
  handle-Holds s now (fires_timer n) k h =
      kept (mailbox-timer_fires cfg s n (deadline_of n s.timers)) h
