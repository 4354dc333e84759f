-- ===== src/Voice/Session/Mailbox.antt =====
-- Directives that wait for the window, and those that reach it.
use riki.Prelude.{ℕ, ◌+◌, ◌≡◌, ◌∙◌, ap, refl, true, List, [], ◌∷◌, Option, String, all, arith}
use riki.Voice.Messages.{
  turn_begin, turn_speak, command_abort, level_enable, voice_ready, event, session_state, tool_call,
  tool_rejected, window_applied, VoiceConfig,
}
use riki.Voice.State.{reports_speaking, VoiceSession, report, on_ready}
use riki.Voice.Session.Queue.{Holds, stays_open, handle-Holds}
use riki.Voice.Updates.{take_at, on_update}
use riki.Voice.Session.{
  speak_now, begin_turn, deadline_of, Input, updates, opens_match, closes_match, sets_levels,
  speaks_now, begins_turn, ends_turn, aborts, subscribes, unsubscribes, disposes, resumes_dispose,
  settles_mint, settles_call, fires_timer, handle, run,
}
use riki.Voice.Session.Delivery.{
  Delivered, on_ready-send, on_ready-start_open, on_ready-on_session_state, on_ready-on_event,
  on_ready-mint_settles, on_ready-timer_fires, on_ready-answer_tool_call, on_ready-call_settles,
  on_ready-close_match, on_ready-dispose, on_ready-end_turn,
}

module _ (cfg : VoiceConfig) (turn_name : ℕ → String)
    (unreadable : String → String → Option String) where
  on_ready-handle :
      (s : VoiceSession) (now : ℕ) (i : Input)
      → stays_open i ≡ true
      → s.window ≡ true
      → Delivered s
      → on_ready (handle cfg turn_name unreadable s now i)
        ≡ handle cfg turn_name unreadable (on_ready s) now i
  unfolding handle on_update on_ready speak_now begin_turn
  on_ready-handle s now (updates voice_ready) k hw h = refl
  on_ready-handle s now (updates (event e)) k hw h = on_ready-on_event cfg now s e
  on_ready-handle s now (updates (session_state next)) k hw h = on_ready-on_session_state cfg s next
  on_ready-handle s now (updates (tool_call call name args)) k hw h =
      on_ready-answer_tool_call cfg now unreadable s call name args
  on_ready-handle s now (updates (tool_rejected name reason)) k hw h = refl
  on_ready-handle s now (updates window_applied) k hw h = refl
  on_ready-handle s now (opens_match instructions) k hw h =
      on_ready-start_open cfg s instructions hw
  on_ready-handle s now (closes_match reason) k hw h = on_ready-close_match s reason hw h
  on_ready-handle s now (sets_levels on) k hw h = on_ready-send s (level_enable on) hw h
  on_ready-handle s now (speaks_now turn text) k hw h =
      on_ready-send (report s (reports_speaking turn true ∷ [])) (turn_speak turn text) hw h
  on_ready-handle s now (begins_turn mode) k hw h =
      on_ready-send (record s { turn_counter = s.turn_counter + 1 })
        (turn_begin (turn_name (s.turn_counter + 1)) mode) hw h
  on_ready-handle s now (ends_turn turn reason text) k hw h =
      on_ready-end_turn s turn reason text hw h
  on_ready-handle s now aborts k hw h = on_ready-send s command_abort hw h
  on_ready-handle s now subscribes k hw h = refl
  on_ready-handle s now unsubscribes k hw h = refl
  on_ready-handle s now disposes k hw h = on_ready-dispose s hw h
  on_ready-handle s now resumes_dispose k hw h = absurd (ground arith)
  on_ready-handle s now (settles_mint i r) k hw h =
      on_ready-mint_settles cfg now s (take_at i s.minting) r hw h
  on_ready-handle s now (settles_call i r) k hw h =
      on_ready-call_settles s (take_at i s.calls) r hw h
  on_ready-handle s now (fires_timer n) k hw h =
      on_ready-timer_fires cfg s n (deadline_of n s.timers)

  -- Whatever is called and whatever happens while the window is not ready, short of its closing: once it
  -- is ready, the session is as it would be had the window been ready from the start. So the window
  -- has received the same directives, each once and in the same order. Nothing waits at first if the
  -- window is ready already.
  pub on_ready-run :
      (s : VoiceSession) (is : List (ℕ × Input))
      → all (λ (now, i). stays_open i) is ≡ true
      → Holds s
      → on_ready (run cfg turn_name unreadable s is) ≡ run cfg turn_name unreadable (on_ready s) is
  unfolding run
  on_ready-run s [] k h = refl
  on_ready-run s ((now, i) ∷ is) k h =
      let ki : stays_open i ≡ true = ground (arith, k) in
      let ks : all (λ (now, i). stays_open i) is ≡ true = ground (arith, k) in
      on_ready-run (handle cfg turn_name unreadable s now i) is ks
        (handle-Holds cfg turn_name unreadable s now i ki h)
      ∙ ap (λ t. run cfg turn_name unreadable t is)
          (on_ready-handle s now i ki h.stands h.delivered)
