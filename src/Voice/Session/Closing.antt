-- ===== src/Voice/Session/Closing.antt =====
-- What can still happen once a match is closed.
use riki.Prelude.{
  ℕ, ◌+◌, ◌≡◌, sym, subst, refl, Bool, true, false, List, [], ◌∷◌, Option, none, some, String,
  arith, all,
}
use riki.Voice.Messages.{
  session_close, VoiceSessionState, idle, WindowEvent, level, fault, passed, raised, voice_ready,
  event, session_state, tool_call, tool_rejected, window_applied, VoiceConfig,
}
use riki.Voice.State.{
  RenewalReason, age, lost, opened, Detail, said, minutes_old, attempts, Deadline, scheduled,
  awaiting_ready, retry, reports_fault, reports_renewal, reports_speaking, emits, VoiceSession,
  report, set_state, or_lost, without_timer, cancel_renew_timer, stop_renewal,
}
use riki.Voice.Renewal.{arm_scheduled_renewal, renew_open, renew}
use riki.Voice.Updates.{
  MintResult, take_at, mint_settles, on_session_state, end_renewal, on_event, answer_parsed,
  answer_tool_call, on_update,
}
use riki.Voice.Session.{
  close_match, speak_now, begin_turn, fire, deadline_of, timer_fires, Input, updates, opens_match,
  closes_match, sets_levels, speaks_now, begins_turn, ends_turn, aborts, subscribes, unsubscribes,
  disposes, resumes_dispose, settles_mint, settles_call, fires_timer, handle, run,
}
use riki.Voice.Session.Closed.{
  is_scheduled, opened_count, asked_count, Closed, without_timer-scheduled, deadline-scheduled,
  report-Closed, set_state-Closed, send-Closed, on_ready-Closed, cancel_renew_timer-Closed,
  close_match-Closed, dispose-Closed, finish_dispose-Closed, end_turn-Closed, call_settles-Closed,
}

module _ (a o : ℕ) where
  module _ (cfg : VoiceConfig) where
    renew-Closed :
        (s : VoiceSession) (reason : RenewalReason) (detail : Detail)
        → Closed a o s
        → Closed a o (renew cfg s reason detail)
    unfolding renew renew_open
    renew-Closed s reason detail c =
        let stays : renew cfg s reason detail ≡ s = rw c.no_match refl in
        subst (Closed a o) (sym stays) c

    arm_scheduled_renewal-Closed :
        (s : VoiceSession) → Closed a o s → Closed a o (arm_scheduled_renewal cfg s)
    unfolding arm_scheduled_renewal
    arm_scheduled_renewal-Closed s c = ground (arith, c.no_match, cancel_renew_timer-Closed a o s c)

    end_renewal-Closed : (s : VoiceSession) → Closed a o s → Closed a o (end_renewal s)
    unfolding end_renewal
    end_renewal-Closed s c = ground (
      arith,
      c,
      report-Closed a o (record s { renewing = false; renew_reason = none })
          (reports_renewal opened (or_lost s.renew_reason) (attempts (s.renew_attempt + 1)) ∷ [])
          refl c,
    )

    on_session_state-Closed :
        (s : VoiceSession) (next : VoiceSessionState)
        → Closed a o s
        → Closed a o (on_session_state cfg s next)
    unfolding on_session_state
    on_session_state-Closed s next c =
        let s1 : VoiceSession = set_state s next in
        let c1 : Closed a o s1 = set_state-Closed a o s next c in
        let c2 = end_renewal-Closed (cancel_renew_timer s1) (cancel_renew_timer-Closed a o s1 c1) in
        ground (
          arith,
          c1,
          arm_scheduled_renewal-Closed
              (record (end_renewal (cancel_renew_timer s1)) { renew_attempt = 0 }) c2,
        )

    on_event-Closed :
        (now : ℕ) (s : VoiceSession) (e : WindowEvent)
        → Closed a o s
        → Closed a o (on_event cfg now s e)
    unfolding on_event
    on_event-Closed now s (level source value) c = report-Closed a o s _ refl c
    on_event-Closed now s (fault f) c = ground (
      arith,
      renew-Closed s lost (said f.message) c,
      report-Closed a o s
          (reports_fault f.kind (said f.message) ∷ emits s.listeners (raised f) ∷ []) refl c,
    )
    on_event-Closed now s (passed text) c = report-Closed a o s _ refl c

    module _ (now : ℕ) (unreadable : String → String → Option String) where
      answer_parsed-Closed :
          (s : VoiceSession) (call name : String) (problem : Option String)
          → Closed a o s
          → Closed a o (answer_parsed cfg now unreadable s call name problem)
      unfolding answer_parsed
      answer_parsed-Closed s call name none c = report-Closed a o s _ refl c
      answer_parsed-Closed s call name (some detail) c = report-Closed a o s _ refl c

      answer_tool_call-Closed :
          (s : VoiceSession) (call name args : String)
          → Closed a o s
          → Closed a o (answer_tool_call cfg now unreadable s call name args)
      unfolding answer_tool_call
      answer_tool_call-Closed s call name args c =
          ground (arith, c, answer_parsed-Closed s call name (unreadable name args) c)

    no_mint-Closed :
        (now i : ℕ) (s : VoiceSession) (r : MintResult)
        → Closed a o s
        → Closed a o (mint_settles cfg now s (take_at i s.minting) r)
    unfolding mint_settles
    no_mint-Closed now i s r c =
        let stays : mint_settles cfg now s (take_at i s.minting) r ≡ s = rw c.no_mint refl in
        subst (Closed a o) (sym stays) c

    timer_fires-Closed :
        (s : VoiceSession) (n : ℕ) (found : Option Deadline)
        → deadline_of n s.timers ≡ found
        → Closed a o s
        → Closed a o (timer_fires cfg s n found)
    unfolding timer_fires fire
    timer_fires-Closed s n none e c = c
    timer_fires-Closed s n (some scheduled) e c =
        renew-Closed (record s { timers = without_timer (some n) s.timers; renew_timer = none }) age
          (minutes_old cfg.renew_after_ms)
          (record {
            no_match = c.no_match;
            no_mint = c.no_mint;
            no_retry = without_timer-scheduled (some n) s.timers c.no_retry;
            none_opened = c.none_opened;
            asked_as_before = c.asked_as_before;
          })
    timer_fires-Closed s n (some (awaiting_ready instructions)) e c =
        absurd (ground (arith, deadline-scheduled n s.timers _ c.no_retry e))
    timer_fires-Closed s n (some (retry instructions)) e c =
        absurd (ground (arith, deadline-scheduled n s.timers _ c.no_retry e))

-- Every call but the opening of a match.
abbrev pub opens_none : Input → Bool
opens_none (opens_match instructions) = false
opens_none i = true

module _ (cfg : VoiceConfig) (turn_name : ℕ → String) (unreadable : String → String → Option String)
    (a o : ℕ) where
  handle-Closed :
      (s : VoiceSession) (now : ℕ) (i : Input)
      → opens_none i ≡ true
      → Closed a o s
      → Closed a o (handle cfg turn_name unreadable s now i)
  unfolding handle on_update speak_now begin_turn
  handle-Closed s now (updates voice_ready) k c = on_ready-Closed a o s c
  handle-Closed s now (updates (event e)) k c = on_event-Closed a o cfg now s e c
  handle-Closed s now (updates (session_state next)) k c = on_session_state-Closed a o cfg s next c
  handle-Closed s now (updates (tool_call call name args)) k c =
      answer_tool_call-Closed a o cfg now unreadable s call name args c
  handle-Closed s now (updates (tool_rejected name reason)) k c = report-Closed a o s _ refl c
  handle-Closed s now (updates window_applied) k c = c
  handle-Closed s now (opens_match instructions) k c = absurd (ground arith)
  handle-Closed s now (closes_match reason) k c = close_match-Closed a o s reason c
  handle-Closed s now (sets_levels on) k c = send-Closed a o s _ refl c
  handle-Closed s now (speaks_now turn text) k c =
      send-Closed a o (report s (reports_speaking turn true ∷ [])) _ refl
        (report-Closed a o s (reports_speaking turn true ∷ []) refl c)
  handle-Closed s now (begins_turn mode) k c =
      send-Closed a o (record s { turn_counter = s.turn_counter + 1 }) _ refl c
  handle-Closed s now (ends_turn turn reason text) k c = end_turn-Closed a o s turn reason text c
  handle-Closed s now aborts k c = send-Closed a o s _ refl c
  handle-Closed s now subscribes k c = c
  handle-Closed s now unsubscribes k c = c
  handle-Closed s now disposes k c = dispose-Closed a o s c
  handle-Closed s now resumes_dispose k c = finish_dispose-Closed a o s c
  handle-Closed s now (settles_mint i r) k c = no_mint-Closed a o cfg now i s r c
  handle-Closed s now (settles_call i r) k c = call_settles-Closed a o s (take_at i s.calls) r c
  handle-Closed s now (fires_timer n) k c =
      timer_fires-Closed a o cfg s n (deadline_of n s.timers) refl c

  run-Closed :
      (s : VoiceSession) (is : List (ℕ × Input))
      → all (λ (now, i). opens_none i) is ≡ true
      → Closed a o s
      → Closed a o (run cfg turn_name unreadable s is)
  unfolding run
  run-Closed s [] k c = c
  run-Closed s ((now, i) ∷ is) k c =
      run-Closed (handle cfg turn_name unreadable s now i) is (ground (arith, k))
        (handle-Closed s now i (ground (arith, k)) c)

module _ (cfg : VoiceConfig) (turn_name : ℕ → String)
    (unreadable : String → String → Option String) where
  -- A match is closed while nothing waits for a secret and every timer but the one that is cancelled is
  -- a scheduled renewal: then, until a match is opened, and whatever is called, fires or comes from
  -- the window, no match is open, no secret is asked for, and no directive to open a session is
  -- issued.
  pub close_match-run :
      (s : VoiceSession) (now : ℕ) (reason : String) (is : List (ℕ × Input))
      → s.minting ≡ []
      → all is_scheduled (without_timer s.renew_timer s.timers) ≡ true
      → all (λ (now, i). opens_none i) is ≡ true
      → Closed
          (asked_count s)
          (opened_count s)
          (run cfg turn_name unreadable s ((now, closes_match reason) ∷ is))
  unfolding run handle close_match stop_renewal cancel_renew_timer
  close_match-run s now reason is m w k =
      let stopped : Closed (asked_count s) (opened_count s) (stop_renewal s) = record {
        no_match = refl;
        no_mint = m;
        no_retry = w;
        none_opened = omega arith;
        asked_as_before = refl;
      } in
      run-Closed cfg turn_name unreadable (asked_count s) (opened_count s) (close_match s reason) is
        k
        (set_state-Closed (asked_count s) (opened_count s) _ idle (
          send-Closed (asked_count s) (opened_count s) (stop_renewal s) (session_close reason) refl
            stopped))
