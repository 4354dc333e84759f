-- ===== src/Voice/Renewal.antt =====
-- main/voice/session.ts: opening and renewing the session.
use riki.Prelude.{
  ℕ, ◌+◌, Bool, true, false, not, ◌&&◌, ◌||◌, [], ◌∷◌, Option, none, some, String, if◌then◌else◌,
  same,
}
use riki.World.Timeline.{get_elem?}
use riki.Voice.Messages.{
  session_lost, VoiceFaultKind-discrete, VoiceFault, connecting, degraded, unavailable, VoiceConfig,
}
use riki.Voice.State.{
  RenewalReason, started, retrying, gave_up, Detail, next_attempt, opening, renewing_for, scheduled,
  retry, reports_renewal, VoiceSession, report, set_state, raise, is_some, or_lost,
  cancel_renew_timer, arm, ensure_window, stop_renewal, ask_secret,
}

-- `attemptRenewal` up to the await.
unfoldable pub attempt_renewal : VoiceSession → String → VoiceSession
unfolding cancel_renew_timer set_state ask_secret
attempt_renewal s instructions =
    if s.disposed
    then cancel_renew_timer s
    else ask_secret (set_state (cancel_renew_timer s) connecting) instructions
        (renewing_for (or_lost s.renew_reason))

unfoldable pub give_up : VoiceSession → Detail → Bool → VoiceSession
unfolding set_state raise
give_up s detail retryable =
    raise
      (set_state
        (report (record s { renewing = false; renew_reason = none })
          (reports_renewal gave_up (or_lost s.renew_reason) detail ∷ []))
        (if retryable then degraded else unavailable))
      session_lost detail retryable

module _ (cfg : VoiceConfig) where
  unfoldable pub arm_scheduled_renewal : VoiceSession → VoiceSession
  unfolding cancel_renew_timer arm
  arm_scheduled_renewal s =
      if not cfg.has_timers || (not (is_some s.open_instructions) || s.disposed)
      then cancel_renew_timer s
      else arm (cancel_renew_timer s) cfg.renew_after_ms scheduled

  unfoldable pub is_renewable : VoiceSession → VoiceFault → Bool
  is_renewable s f =
      same VoiceFaultKind-discrete f.kind session_lost
      && (f.retryable && (is_some s.open_instructions && (cfg.has_key && not s.disposed)))

  unfoldable pub renew_open : Option String → VoiceSession → RenewalReason → Detail → VoiceSession
  unfolding attempt_renewal
  renew_open none s reason detail = s
  renew_open (some instructions) s reason detail =
      if s.renewing || (not cfg.has_key || s.disposed)
      then s
      else attempt_renewal
          (report (record s { renewing = true; renew_attempt = 0; renew_reason = some reason })
            (reports_renewal started reason detail ∷ []))
          instructions

  unfoldable pub renew : VoiceSession → RenewalReason → Detail → VoiceSession
  unfolding renew_open
  renew s reason detail = renew_open s.open_instructions s reason detail

  unfoldable pub back_off_after : Option ℕ → VoiceSession → String → Detail → Bool → VoiceSession
  unfolding give_up arm
  back_off_after none s instructions detail retryable = give_up s detail retryable
  back_off_after (some delay) s instructions detail retryable =
      if not retryable || (not cfg.has_timers || s.disposed)
      then give_up s detail retryable
      else arm
          (report s (
            reports_renewal retrying (or_lost s.renew_reason)
              (next_attempt detail (s.renew_attempt + 1) delay)
            ∷ []))
          delay (retry instructions)

  unfoldable pub back_off : VoiceSession → String → Detail → Bool → VoiceSession
  unfolding back_off_after
  back_off s instructions detail retryable =
      back_off_after (get_elem? cfg.backoff_ms s.renew_attempt)
        (record s { renew_attempt = s.renew_attempt + 1 }) instructions detail retryable

  unfoldable pub start_open : VoiceSession → String → VoiceSession
  unfolding set_state ensure_window stop_renewal ask_secret
  start_open s instructions =
      if not cfg.has_key
      then set_state s unavailable
      else if s.disposed
      then s
      else ask_secret (set_state (stop_renewal (ensure_window s)) connecting) instructions opening
