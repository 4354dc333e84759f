-- ===== src/Voice/Updates.antt =====
-- main/voice/session.ts: the updates of the window, and what follows an await that ends.
use riki.Prelude.{
  ℕ, zero, suc, ◌+◌, Bool, false, List, [], ◌∷◌, ◌++◌, Option, none, some, String, if◌then◌else◌,
  same,
}
use riki.Voice.Messages.{
  VoiceFaultKind, ClientSecret, result, not_wired, not_understood, could_not_answer, VoiceDirective,
  session_open, tool_result, VoiceSessionState, ready, degraded, unavailable,
  VoiceSessionState-discrete, WindowEvent, level, fault, passed, timed_level, raised, relayed,
  VoiceUpdate, voice_ready, event, session_state, tool_call, tool_rejected, window_applied,
  VoiceConfig, open_directive,
}
use riki.Voice.State.{
  lost, opened, said, attempts, sent_unawaited, opening, renewing_for, Mint, awaiting_ready, Call,
  answered, dispatched, reports_fault, reports_renewal, Purpose, reports_rejection, reports_problem,
  emits, dispatches, VoiceSession, report, set_state, raise, send, on_ready, or_lost,
  cancel_renew_timer, arm,
}
use riki.Voice.Renewal.{arm_scheduled_renewal, is_renewable, renew, back_off}

-- How a mint ends: a secret, or the kind, text and retryability of the failure.
pub data MintResult : Type 0 where
  granted : ClientSecret → MintResult
  refused : VoiceFaultKind → String → Bool → MintResult

-- How the dispatcher's call ends.
pub data CallResult : Type 0 where
  returned threw : String → CallResult

-- An element by its place, and the others.
abbrev pub take_at {ℓ} : {A : Type ℓ} → ℕ → List A → Option (A × List A)
take_at n [] = none
take_at zero (x ∷ xs) = some (x, xs)
take_at (suc n) (x ∷ xs) = elim (take_at n xs) [ none ↦ none | some (y, ys) ↦ some (y, x ∷ ys) ]

-- `case 'voice.session.state'`. A renewal that runs has its session.
unfoldable pub end_renewal : VoiceSession → VoiceSession
end_renewal s =
    if s.renewing
    then report (record s { renewing = false; renew_reason = none })
        (reports_renewal opened (or_lost s.renew_reason) (attempts (s.renew_attempt + 1)) ∷ [])
    else s

unfoldable pub on_session_state : VoiceConfig → VoiceSession → VoiceSessionState → VoiceSession
unfolding set_state cancel_renew_timer end_renewal arm_scheduled_renewal
on_session_state cfg s next =
    let s1 = set_state s next in
    if same VoiceSessionState-discrete next ready
    then arm_scheduled_renewal cfg
        (record (end_renewal (cancel_renew_timer s1)) { renew_attempt = 0 })
    else s1

-- The two callers of `sendOpen` from the await on, once the directive is sent, and when there was no
-- secret.
unfoldable pub after_sent : VoiceConfig → VoiceSession → Purpose → String → VoiceSession
unfolding arm
after_sent cfg s opening instructions = record s { open_instructions = some instructions }
after_sent cfg s (renewing_for reason) instructions =
    if cfg.has_timers
    then arm s cfg.ready_timeout_ms (awaiting_ready instructions)
    else report (record s { renewing = false }) (reports_renewal opened reason sent_unawaited ∷ [])

unfoldable pub after_failure :
    VoiceConfig → VoiceSession → Purpose → String → VoiceFaultKind → String → Bool → VoiceSession
unfolding set_state raise back_off
after_failure cfg s opening instructions kind message retryable =
    raise (set_state s (if retryable then degraded else unavailable)) kind (said message) retryable
after_failure cfg s (renewing_for reason) instructions kind message retryable =
    back_off cfg s instructions (said message) retryable

module _ (cfg : VoiceConfig) (now : ℕ) where
  -- `sendOpen` from the await on, and what follows it.
  unfoldable pub after_mint : VoiceSession → Mint → MintResult → VoiceSession
  unfolding send open_directive after_sent after_failure
  after_mint s m (refused kind message retryable) =
      after_failure cfg s m.purpose m.instructions kind message retryable
  after_mint s m (granted secret) =
      after_sent cfg (send s (session_open (open_directive cfg now m.instructions secret)))
        m.purpose m.instructions

  unfoldable pub mint_settles : VoiceSession → Option (Mint × List Mint) → MintResult → VoiceSession
  unfolding after_mint
  mint_settles s none r = s
  mint_settles s (some (m, rest)) r = after_mint (record s { minting = rest }) m r

  -- `case 'voice.event'`
  unfoldable pub on_event : VoiceSession → WindowEvent → VoiceSession
  unfolding is_renewable renew
  on_event s (level source value) = report s (emits s.listeners (timed_level source value now) ∷ [])
  on_event s (fault f) =
      if is_renewable cfg s f
      then renew cfg s lost (said f.message)
      else report s (reports_fault f.kind (said f.message) ∷ emits s.listeners (raised f) ∷ [])
  on_event s (passed text) = report s (emits s.listeners (relayed text) ∷ [])

  module _ (unreadable : String → String → Option String) where
    -- `answerToolCall` up to the await. `unreadable` is what is wrong with the arguments of a tool.
    unfoldable pub answer_parsed : VoiceSession → String → String → Option String → VoiceSession
    answer_parsed s call name none =
        report (record s { calls = s.calls ++ dispatched call name ∷ [] })
          (dispatches call name ∷ [])
    answer_parsed s call name (some detail) =
        report (record s { calls = s.calls ++ answered call (not_understood name) ∷ [] })
          (reports_problem detail ∷ [])

    unfoldable pub answer_tool_call : VoiceSession → String → String → String → VoiceSession
    unfolding answer_parsed
    answer_tool_call s call name args =
        if cfg.has_tools
        then answer_parsed s call name (unreadable name args)
        else record s { calls = s.calls ++ answered call (not_wired name) ∷ [] }

    unfoldable pub on_update : VoiceSession → VoiceUpdate → VoiceSession
    unfolding on_ready on_event on_session_state answer_tool_call
    on_update s voice_ready = on_ready s
    on_update s (event e) = on_event s e
    on_update s (session_state next) = on_session_state cfg s next
    on_update s (tool_call call name args) = answer_tool_call s call name args
    on_update s (tool_rejected name reason) = report s (reports_rejection name reason ∷ [])
    on_update s window_applied = s

abbrev pub answer_of : Call → CallResult → VoiceDirective
answer_of (answered call answer) r = tool_result call answer
answer_of (dispatched call name) (returned value) = tool_result call (result value)
answer_of (dispatched call name) (threw message) = tool_result call (could_not_answer name message)

-- `answerToolCall` from the await on.
unfoldable pub call_settles : VoiceSession → Option (Call × List Call) → CallResult → VoiceSession
unfolding send
call_settles s none r = s
call_settles s (some (c, rest)) r = send (record s { calls = rest }) (answer_of c r)
