-- ===== src/Voice/Session/Answers.antt =====
-- The answers of the model's tool calls.
use riki.Prelude.{
  count, count-append, ap, ◌∷◌, ◌∙◌, inl, inr, map, if◌then◌else◌, suc, zero, all, ℕ, ◌+◌, ◌≡◌,
  refl, Bool, true, false, List, [], Option, none, some, String, Option-cases, arith,
}
use riki.Realtime.Turn.{TurnEndReason, release, latch_tap, timeout, cancel}
use riki.Voice.Messages.{
  VoiceDirective, session_close, session_open, open_directive, tool_result, result, not_wired,
  not_understood, could_not_answer, turn_speak, turn_begin, command_abort, level_enable, idle,
  voice_ready, event, session_state, tool_call, tool_rejected, window_applied, VoiceConfig,
}
use riki.Voice.State.{
  Mint, Call, answered, dispatched, reports_speaking, VoiceSession, report, send, on_ready,
  cancel_renew_timer, stop_renewal,
}
use riki.Voice.Updates.{
  MintResult, granted, refused, CallResult, returned, threw, take_at, after_mint, mint_settles,
  answer_parsed, answer_tool_call, on_update, answer_of, call_settles,
}
use riki.Voice.Session.{
  close_match, note_end, start_dispose, dispose, speak_now, end_turn, begin_turn, deadline_of,
  Input, updates, opens_match, closes_match, sets_levels, speaks_now, begins_turn, ends_turn,
  aborts, subscribes, unsubscribes, disposes, resumes_dispose, settles_mint, settles_call,
  fires_timer, handle, run,
}
use riki.Voice.Session.Queue.{
  Holds, stays_open, handle-Holds, mailbox-set_state, mailbox-start_open, mailbox-on_session_state,
  mailbox-on_event, mailbox-timer_fires, mailbox-after_sent, mailbox-after_failure, Mailbox,
}

-- For a kind `q` of the ids of tool calls.
module _ (q : String → Bool) where
  abbrev is_result : VoiceDirective → Bool
  is_result (tool_result call answer) = q call
  is_result d = false

  abbrev is_call : Call → Bool
  is_call (answered call answer) = q call
  is_call (dispatched call name) = q call

  abbrev settled_at : Mailbox → ℕ
  settled_at (w, r, queued, sent, calls) =
      count is_result sent + count is_result queued + count is_call calls

  -- How many answers of such tool calls were issued, and how many calls are still being answered.
  abbrev pub results : VoiceSession → ℕ
  results s = count is_result s.sent + count is_result s.queued + count is_call s.calls

  abbrev pub is_tool_call : Input → Bool
  is_tool_call (updates (tool_call call name args)) = q call
  is_tool_call i = false

  -- One more for a tool call of the kind.
  abbrev with_call : Input → ℕ → ℕ
  with_call (updates (tool_call call name args)) n = if q call then suc n else n
  with_call i n = n

  with_call-count : (i : Input) (n : ℕ) → with_call i n ≡ count is_tool_call (i ∷ []) + n
  with_call-count (updates (tool_call call name args)) n = ground arith
  with_call-count i n = omega arith

  results-send :
      (s : VoiceSession) (d : VoiceDirective)
      → s.window ≡ true
      → results (send s d) ≡ count is_result (d ∷ []) + results s
  unfolding send
  results-send s d w =
      ground
        (arith, w, count-append is_result s.sent (d ∷ []), count-append is_result s.queued (d ∷ []))

  -- A directive that is no answer.
  results_kept :
      (s : VoiceSession) (d : VoiceDirective)
      → is_result d ≡ false
      → s.window ≡ true
      → results (send s d) ≡ results s
  results_kept s d e w = ground (arith, e, results-send s d w)

  results-on_ready : (s : VoiceSession) → s.window ≡ true → results (on_ready s) ≡ results s
  unfolding on_ready
  results-on_ready s w = ground (arith, w, count-append is_result s.sent s.queued)

  count-take_at :
      (i : ℕ) (cs rest : List Call) (c : Call)
      → take_at i cs ≡ some (c, rest)
      → count is_call cs ≡ count is_call (c ∷ []) + count is_call rest
  count-take_at i [] rest c e = absurd (ground (arith, e))
  count-take_at zero (x ∷ xs) rest c e = ground (arith, e)
  count-take_at (suc i) (x ∷ xs) rest c e = elim (Option-cases (take_at i xs)) [
    | inl t ↦ absurd (ground (arith, t, e))
    | inr ((y, ys), t) ↦ ground (arith, t, e, count-take_at i xs ys y t)
  ]

  results-answer :
      (s : VoiceSession) (c : Call) (r : CallResult)
      → s.window ≡ true
      → results (send s (answer_of c r)) ≡ count is_call (c ∷ []) + results s
  results-answer s (answered call answer) r w =
      omega (arith, results-send s (tool_result call answer) w)
  results-answer s (dispatched call name) (returned value) w =
      omega (arith, results-send s (tool_result call (result value)) w)
  results-answer s (dispatched call name) (threw message) w =
      omega (arith, results-send s (tool_result call (could_not_answer name message)) w)

  results-call_settles :
      (s : VoiceSession) (taken : Option (Call × List Call)) (i : ℕ) (r : CallResult)
      → take_at i s.calls ≡ taken
      → s.window ≡ true
      → results (call_settles s taken r) ≡ results s
  unfolding call_settles
  results-call_settles s none i r e w = refl
  results-call_settles s (some (c, rest)) i r e w =
      omega
        (arith, results-answer (record s { calls = rest }) c r w, count-take_at i s.calls rest c e)

  results-close_match :
      (s : VoiceSession) (reason : String)
      → s.window ≡ true
      → results (close_match s reason) ≡ results s
  unfolding close_match stop_renewal cancel_renew_timer
  results-close_match s reason w =
      let sent : results (send (stop_renewal s) (session_close reason)) ≡ results s =
        results_kept (stop_renewal s) (session_close reason) refl w in
      ap settled_at (mailbox-set_state (send (stop_renewal s) (session_close reason)) idle) ∙ sent

  results-dispose : (s : VoiceSession) → s.window ≡ true → results (dispose s) ≡ results s
  unfolding dispose start_dispose
  results-dispose s w =
      ground (arith, results-close_match (record s { disposed = true }) "app quitting" w)

  results-end_turn :
      (s : VoiceSession) (turn : String) (reason : TurnEndReason) (text : String)
      → s.window ≡ true
      → results (end_turn s turn reason text) ≡ results s
  unfolding end_turn
  results-end_turn s turn cancel text w = results_kept s _ refl w
  results-end_turn s turn release text w = results_kept (note_end s turn release) _ refl w
  results-end_turn s turn latch_tap text w = results_kept (note_end s turn latch_tap) _ refl w
  results-end_turn s turn timeout text w = results_kept (note_end s turn timeout) _ refl w

  module _ (cfg : VoiceConfig) where
    results-mint_settles :
        (now : ℕ) (s : VoiceSession) (taken : Option (Mint × List Mint)) (r : MintResult)
        → s.window ≡ true
        → results (mint_settles cfg now s taken r) ≡ results s
    unfolding mint_settles after_mint
    results-mint_settles now s none r w = refl
    results-mint_settles now s (some (m, rest)) (refused kind message retryable) w = ap settled_at (
        mailbox-after_failure cfg (record s { minting = rest }) m.purpose m.instructions kind
          message retryable)
    results-mint_settles now s (some (m, rest)) (granted secret) w =
        let d = session_open (open_directive cfg now m.instructions secret) in
        let s1 : VoiceSession = send (record s { minting = rest }) d in
        ap settled_at (mailbox-after_sent cfg s1 m.purpose m.instructions)
        ∙ results_kept (record s { minting = rest }) d refl w

    results-answer_tool_call :
        (now : ℕ) (unreadable : String → String → Option String) (s : VoiceSession)
        (call name args : String)
        → results (answer_tool_call cfg now unreadable s call name args)
          ≡ (if q call then suc (results s) else results s)
    unfolding answer_tool_call answer_parsed
    results-answer_tool_call now unreadable s call name args = ground (
      arith,
      Option-cases (unreadable name args),
      count-append is_call s.calls (dispatched call name ∷ []),
      count-append is_call s.calls (answered call (not_understood name) ∷ []),
      count-append is_call s.calls (answered call (not_wired name) ∷ []),
    )

  module _ (cfg : VoiceConfig) (turn_name : ℕ → String)
      (unreadable : String → String → Option String) where
    results-handle :
        (s : VoiceSession) (now : ℕ) (i : Input)
        → stays_open i ≡ true
        → s.window ≡ true
        → results (handle cfg turn_name unreadable s now i) ≡ with_call i (results s)
    unfolding handle on_update speak_now begin_turn
    results-handle s now (updates voice_ready) k w = results-on_ready s w
    results-handle s now (updates (event e)) k w = ap settled_at (mailbox-on_event cfg now s e)
    results-handle s now (updates (session_state next)) k w =
        ap settled_at (mailbox-on_session_state cfg s next)
    results-handle s now (updates (tool_call call name args)) k w =
        results-answer_tool_call cfg now unreadable s call name args
    results-handle s now (updates (tool_rejected name reason)) k w = refl
    results-handle s now (updates window_applied) k w = refl
    results-handle s now (opens_match instructions) k w =
        ap settled_at (mailbox-start_open cfg s instructions w)
    results-handle s now (closes_match reason) k w = results-close_match s reason w
    results-handle s now (sets_levels on) k w = results_kept s (level_enable on) refl w
    results-handle s now (speaks_now turn text) k w =
        results_kept (report s (reports_speaking turn true ∷ [])) (turn_speak turn text) refl w
    results-handle s now (begins_turn mode) k w =
        results_kept (record s { turn_counter = s.turn_counter + 1 })
          (turn_begin (turn_name (s.turn_counter + 1)) mode) refl w
    results-handle s now (ends_turn turn reason text) k w = results-end_turn s turn reason text w
    results-handle s now aborts k w = results_kept s command_abort refl w
    results-handle s now subscribes k w = refl
    results-handle s now unsubscribes k w = refl
    results-handle s now disposes k w = results-dispose s w
    results-handle s now resumes_dispose k w = absurd (ground arith)
    results-handle s now (settles_mint i r) k w =
        results-mint_settles cfg now s (take_at i s.minting) r w
    results-handle s now (settles_call i r) k w =
        results-call_settles s (take_at i s.calls) i r refl w
    results-handle s now (fires_timer n) k w =
        ap settled_at (mailbox-timer_fires cfg s n (deadline_of n s.timers))

    -- While the window stands, until the session is disposed of, and for every kind of call id:
    -- whatever the arguments of a tool call, and whether the dispatcher answers, throws or is not
    -- there, the answers under such ids that were sent or wait for the window, and the calls with
    -- such ids that are being answered, are together as many as before and one for each call with
    -- such an id that comes. So each call has one answer, under its own id, or is being answered,
    -- and nothing else is answered.
    pub results-run :
        (s : VoiceSession) (is : List (ℕ × Input))
        → all (λ (now, i). stays_open i) is ≡ true
        → Holds s
        → results (run cfg turn_name unreadable s is)
          ≡ count is_tool_call (map (λ (now, i). i) is) + results s
    unfolding run
    results-run s [] k h = omega arith
    results-run s ((now, i) ∷ is) k h =
        let ki : stays_open i ≡ true = ground (arith, k) in
        let ks : all (λ (now, i). stays_open i) is ≡ true = ground (arith, k) in
        let rest =
          results-run (handle cfg turn_name unreadable s now i) is ks
            (handle-Holds cfg turn_name unreadable s now i ki h) in
        omega (
          arith,
          rest,
          results-handle s now i ki h.stands,
          with_call-count i (results s),
          count-append is_tool_call (i ∷ []) (map (λ (now, j). j) is),
        )
