-- ===== src/Voice/Session/Delivery.antt =====
-- The window becomes ready before or after a call.
use riki.Prelude.{
  ℕ, ◌≡◌, ◌∙◌, ap, refl, inl, inr, Bool, true, List, [], ◌∷◌, ◌++◌, Option, none, some, String,
  Bool-cases, Option-cases, arith, append_assoc, append-nil,
}
use riki.Realtime.Turn.{TurnEndReason, release, latch_tap, timeout, cancel}
use riki.World.Timeline.{get_elem?}
use riki.Voice.Messages.{
  VoiceFaultKind, VoiceDirective, session_open, session_close, turn_end, VoiceSessionState, idle,
  WindowEvent, level, fault, passed, VoiceConfig, open_directive,
}
use riki.Voice.State.{
  RenewalReason, age, lost, Detail, said, Purpose, opening, renewing_for, Mint, Deadline, scheduled,
  awaiting_ready, retry, Call, VoiceSession, set_state, raise, send, on_ready, without_timer,
  cancel_renew_timer, arm, ensure_window, stop_renewal, ask_secret,
}
use riki.Voice.Renewal.{
  arm_scheduled_renewal, is_renewable, attempt_renewal, renew_open, renew, give_up, back_off_after,
  back_off, start_open,
}
use riki.Voice.Updates.{
  MintResult, granted, refused, after_sent, after_failure, CallResult, after_mint, mint_settles,
  on_session_state, end_renewal, on_event, answer_parsed, answer_tool_call, answer_of, call_settles,
}
use riki.Voice.Session.{close_match, note_end, start_dispose, dispose, end_turn, fire, timer_fires}

-- Nothing waits once the window is ready.
abbrev pub Delivered : VoiceSession → Type 0
Delivered s = s.window_ready ≡ true → s.queued ≡ []

pub on_ready-send :
    (s : VoiceSession) (d : VoiceDirective)
    → s.window ≡ true
    → Delivered s
    → on_ready (send s d) ≡ send (on_ready s) d
unfolding on_ready send
on_ready-send s d hw h = elim (Bool-cases s.window_ready) [
  | inl r ↦ ground (arith, h r, append-nil s.sent, append-nil (s.sent ++ d ∷ []))
  | inr r ↦ ground (arith, append_assoc s.sent s.queued (d ∷ []))
]

on_ready-set_state :
    (s : VoiceSession) (next : VoiceSessionState)
    → on_ready (set_state s next) ≡ set_state (on_ready s) next
unfolding on_ready set_state
on_ready-set_state s next = ground arith

on_ready-attempt_renewal :
    (s : VoiceSession) (instructions : String)
    → on_ready (attempt_renewal s instructions) ≡ attempt_renewal (on_ready s) instructions
unfolding on_ready attempt_renewal set_state cancel_renew_timer ask_secret
on_ready-attempt_renewal s instructions = ground arith

on_ready-give_up :
    (s : VoiceSession) (detail : Detail) (retryable : Bool)
    → on_ready (give_up s detail retryable) ≡ give_up (on_ready s) detail retryable
unfolding on_ready give_up set_state raise
on_ready-give_up s detail retryable = ground arith

module _ (cfg : VoiceConfig) where
  on_ready-back_off :
      (s : VoiceSession) (instructions : String) (detail : Detail) (retryable : Bool)
      → on_ready (back_off cfg s instructions detail retryable)
        ≡ back_off cfg (on_ready s) instructions detail retryable
  unfolding on_ready back_off back_off_after give_up set_state raise arm
  on_ready-back_off s instructions detail retryable =
      elim (Option-cases (get_elem? cfg.backoff_ms s.renew_attempt)) [
        | inl e ↦ ground (arith, e)
        | inr (d, e) ↦ ground (arith, e)
      ]

  on_ready-renew :
      (s : VoiceSession) (reason : RenewalReason) (detail : Detail)
      → on_ready (renew cfg s reason detail) ≡ renew cfg (on_ready s) reason detail
  unfolding on_ready renew renew_open attempt_renewal set_state cancel_renew_timer ask_secret
  on_ready-renew s reason detail = ground (arith, Option-cases s.open_instructions)

  pub on_ready-start_open :
      (s : VoiceSession) (instructions : String)
      → s.window ≡ true
      → on_ready (start_open cfg s instructions) ≡ start_open cfg (on_ready s) instructions
  unfolding on_ready start_open set_state ensure_window stop_renewal cancel_renew_timer ask_secret
  on_ready-start_open s instructions hw = ground (arith, hw)

  pub on_ready-on_session_state :
      (s : VoiceSession) (next : VoiceSessionState)
      → on_ready (on_session_state cfg s next) ≡ on_session_state cfg (on_ready s) next
  unfolding on_ready on_session_state set_state end_renewal arm_scheduled_renewal arm
      cancel_renew_timer
  on_ready-on_session_state s next = ground arith

  pub on_ready-on_event :
      (now : ℕ) (s : VoiceSession) (e : WindowEvent)
      → on_ready (on_event cfg now s e) ≡ on_event cfg now (on_ready s) e
  unfolding on_ready on_event is_renewable
  on_ready-on_event now s (level source value) = refl
  on_ready-on_event now s (fault f) = ground (arith, on_ready-renew s lost (said f.message))
  on_ready-on_event now s (passed text) = refl

  on_ready-fire :
      (s : VoiceSession) (d : Deadline) → on_ready (fire cfg s d) ≡ fire cfg (on_ready s) d
  unfolding on_ready fire
  on_ready-fire s scheduled = on_ready-renew (record s { renew_timer = none }) age _
  on_ready-fire s (awaiting_ready instructions) =
      on_ready-back_off (record s { renew_timer = none }) instructions _ true
  on_ready-fire s (retry instructions) =
      on_ready-attempt_renewal (record s { renew_timer = none }) instructions

  on_ready-after_sent :
      (s : VoiceSession) (p : Purpose) (instructions : String)
      → on_ready (after_sent cfg s p instructions) ≡ after_sent cfg (on_ready s) p instructions
  unfolding on_ready after_sent arm
  on_ready-after_sent s opening instructions = refl
  on_ready-after_sent s (renewing_for reason) instructions = ground arith

  on_ready-after_failure :
      (s : VoiceSession) (p : Purpose) (instructions : String) (kind : VoiceFaultKind)
      (message : String) (retryable : Bool)
      → on_ready (after_failure cfg s p instructions kind message retryable)
        ≡ after_failure cfg (on_ready s) p instructions kind message retryable
  unfolding on_ready after_failure set_state raise
  on_ready-after_failure s opening instructions kind message retryable = ground arith
  on_ready-after_failure s (renewing_for reason) instructions kind message retryable =
      on_ready-back_off s instructions (said message) retryable

  on_ready-after_mint :
      (now : ℕ) (s : VoiceSession) (m : Mint) (r : MintResult)
      → s.window ≡ true
      → Delivered s
      → on_ready (after_mint cfg now s m r) ≡ after_mint cfg now (on_ready s) m r
  unfolding after_mint
  on_ready-after_mint now s m (refused kind message retryable) hw h =
      on_ready-after_failure s m.purpose m.instructions kind message retryable
  on_ready-after_mint now s m (granted secret) hw h =
      on_ready-after_sent (send s (session_open (open_directive cfg now m.instructions secret)))
        m.purpose m.instructions
      ∙ ap (λ t. after_sent cfg t m.purpose m.instructions) (on_ready-send s _ hw h)

  pub on_ready-mint_settles :
      (now : ℕ) (s : VoiceSession) (taken : Option (Mint × List Mint)) (r : MintResult)
      → s.window ≡ true
      → Delivered s
      → on_ready (mint_settles cfg now s taken r) ≡ mint_settles cfg now (on_ready s) taken r
  unfolding mint_settles on_ready
  on_ready-mint_settles now s none r hw h = refl
  on_ready-mint_settles now s (some (m, rest)) r hw h =
      on_ready-after_mint now (record s { minting = rest }) m r hw h

  pub on_ready-timer_fires :
      (s : VoiceSession) (n : ℕ) (found : Option Deadline)
      → on_ready (timer_fires cfg s n found) ≡ timer_fires cfg (on_ready s) n found
  unfolding timer_fires on_ready
  on_ready-timer_fires s n none = refl
  on_ready-timer_fires s n (some deadline) =
      on_ready-fire (record s { timers = without_timer (some n) s.timers }) deadline

  pub on_ready-answer_tool_call :
      (now : ℕ) (unreadable : String → String → Option String) (s : VoiceSession)
      (call name args : String)
      → on_ready (answer_tool_call cfg now unreadable s call name args)
        ≡ answer_tool_call cfg now unreadable (on_ready s) call name args
  unfolding on_ready answer_tool_call answer_parsed
  on_ready-answer_tool_call now unreadable s call name args =
      ground (arith, Option-cases (unreadable name args))

pub on_ready-call_settles :
    (s : VoiceSession) (taken : Option (Call × List Call)) (r : CallResult)
    → s.window ≡ true
    → Delivered s
    → on_ready (call_settles s taken r) ≡ call_settles (on_ready s) taken r
unfolding on_ready call_settles
on_ready-call_settles s none r hw h = refl
on_ready-call_settles s (some (c, rest)) r hw h =
    on_ready-send (record s { calls = rest }) (answer_of c r) hw h

pub on_ready-close_match :
    (s : VoiceSession) (reason : String)
    → s.window ≡ true
    → Delivered s
    → on_ready (close_match s reason) ≡ close_match (on_ready s) reason
unfolding close_match stop_renewal cancel_renew_timer on_ready
on_ready-close_match s reason hw h =
    on_ready-set_state (send (stop_renewal s) (session_close reason)) idle
    ∙ ap (λ t. set_state t idle) (on_ready-send (stop_renewal s) (session_close reason) hw h)

on_ready-start_dispose :
    (s : VoiceSession)
    → s.window ≡ true
    → Delivered s
    → on_ready (start_dispose s) ≡ start_dispose (on_ready s)
unfolding start_dispose on_ready
on_ready-start_dispose s hw h =
    ap {A = VoiceSession} (λ t. record t { disposing = true })
      (on_ready-close_match (record s { disposed = true }) "app quitting" hw h)

pub on_ready-dispose :
    (s : VoiceSession) → s.window ≡ true → Delivered s → on_ready (dispose s) ≡ dispose (on_ready s)
unfolding dispose on_ready
on_ready-dispose s hw h = ground (arith, on_ready-start_dispose s hw h)

pub on_ready-end_turn :
    (s : VoiceSession) (turn : String) (reason : TurnEndReason) (text : String)
    → s.window ≡ true
    → Delivered s
    → on_ready (end_turn s turn reason text) ≡ end_turn (on_ready s) turn reason text
unfolding end_turn on_ready
on_ready-end_turn s turn cancel text hw h = on_ready-send s _ hw h
on_ready-end_turn s turn release text hw h =
    on_ready-send (note_end s turn release) (turn_end turn release text) hw h
on_ready-end_turn s turn latch_tap text hw h =
    on_ready-send (note_end s turn latch_tap) (turn_end turn latch_tap text) hw h
on_ready-end_turn s turn timeout text hw h =
    on_ready-send (note_end s turn timeout) (turn_end turn timeout text) hw h
