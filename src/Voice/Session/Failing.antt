-- ===== src/Voice/Session/Failing.antt =====
-- One attempt to renew that fails.
use riki.Prelude.{
  ℕ, zero, suc, ◌≡◌, ◌∙◌, ap, refl, true, List, [], ◌∷◌, Option, none, some, String, arith, length,
  ◌<◌,
}
use riki.World.Timeline.{get_elem?}
use riki.Voice.Messages.{
  VoiceFaultKind, ClientSecret, VoiceDirective, session_open, VoiceConfig, open_directive,
}
use riki.Voice.State.{
  RenewalReason, Detail, said, not_ready_within, awaiting_ready, VoiceSession, send, arm,
}
use riki.Voice.Renewal.{attempt_renewal, back_off}
use riki.Voice.Updates.{
  granted, refused, after_sent, after_failure, take_at, after_mint, mint_settles,
}
use riki.Voice.Session.{fire, timer_fires, settles_mint, fires_timer, handle}
use riki.Voice.Session.BackOff.{InFlight, Waiting, Settled, unarmed}

-- A failed attempt: the mint is refused for now, or the window never becomes ready.
pub data Failure : Type 0 where
  no_secret : VoiceFaultKind → String → Failure
  no_answer : ClientSecret → Failure

pub get_elem-some : (xs : List ℕ) (k : ℕ) → k < length xs → (d : ℕ) × (get_elem? xs k ≡ some d)
get_elem-some [] k h = absurd (omega arith)
get_elem-some (x ∷ xs) zero h = (x, refl)
get_elem-some (x ∷ xs) (suc k) h = get_elem-some xs k (omega arith)

pub get_elem-none : (xs : List ℕ) → get_elem? xs (length xs) ≡ none
get_elem-none [] = refl
get_elem-none (x ∷ xs) = get_elem-none xs

module _ (cfg : VoiceConfig) (turn_name : ℕ → String) (unreadable : String → String → Option String)
    (now : ℕ) where
  -- The timer that is armed fires.
  unfoldable pub fires_slot : VoiceSession → Option ℕ → VoiceSession
  fires_slot s none = s
  fires_slot s (some n) = handle cfg turn_name unreadable s now (fires_timer n)

  -- The first secret that waits is refused, or it comes and then the wait for the window ends.
  unfoldable pub fails : VoiceSession → Failure → VoiceSession
  unfolding fires_slot
  fails s (no_secret kind message) =
      handle cfg turn_name unreadable s now (settles_mint 0 (refused kind message true))
  fails s (no_answer secret) =
      let s1 = handle cfg turn_name unreadable s now (settles_mint 0 (granted secret)) in
      fires_slot s1 s1.renew_timer

  unfoldable pub all_fail : VoiceSession → List Failure → VoiceSession
  unfolding fires_slot fails
  all_fail s [] = s
  all_fail s (f ∷ fs) = all_fail (let s1 = fails s f in fires_slot s1 s1.renew_timer) fs

  pub fires_slot-retry :
      (s : VoiceSession) (instructions : String) (reason : RenewalReason) (k : ℕ)
      → Waiting instructions reason k s
      → fires_slot s s.renew_timer
        ≡ attempt_renewal (record s { timers = []; renew_timer = none }) instructions
  unfolding fires_slot handle timer_fires fire
  fires_slot-retry s instructions reason k w = ground (arith, w.slot, w.timers)

  settled :
      (s : VoiceSession) (instructions : String) (reason : RenewalReason) (k : ℕ)
      → InFlight instructions reason k s
      → Settled reason k (record s { minting = [] })
  settled s instructions reason k f = record {
    minting = refl;
    attempt = f.attempt;
    reason_kept = f.reason_kept;
    timers = f.timers;
    slot = f.slot;
    renewing = f.renewing;
    disposed = f.disposed;
  }

  -- The secret comes, and its directive goes where `send` puts it.
  send-Settled :
      (s : VoiceSession) (d : VoiceDirective) (reason : RenewalReason) (k : ℕ)
      → Settled reason k s
      → Settled reason k (unarmed (send s d)) × ((send s d).out ≡ s.out)
  unfolding send
  send-Settled s d reason k f = (
    record {
      minting = ground (arith, f.minting);
      attempt = ground (arith, f.attempt);
      reason_kept = ground (arith, f.reason_kept);
      timers = refl;
      slot = refl;
      renewing = ground (arith, f.renewing);
      disposed = ground (arith, f.disposed);
    },
    ground arith,
  )

  refused_is :
      (s : VoiceSession) (instructions : String) (reason : RenewalReason) (k : ℕ)
      (kind : VoiceFaultKind) (message : String)
      → InFlight instructions reason k s
      → fails s (no_secret kind message)
        ≡ back_off cfg (record s { minting = [] }) instructions (said message) true
  unfolding fails handle mint_settles after_mint after_failure
  refused_is s instructions reason k kind message f = ground (arith, f.minting)

  slot_fires :
      (s : VoiceSession) (delay : ℕ) (instructions : String)
      → s.timers ≡ []
      → fires_slot (arm s delay (awaiting_ready instructions)) (some s.timers_made)
        ≡ back_off cfg (unarmed s) instructions (not_ready_within cfg.ready_timeout_ms) true
  unfolding fires_slot handle arm timer_fires fire
  slot_fires s delay instructions t = ground (arith, t)

  timers_sent : (s : VoiceSession) (d : VoiceDirective) → (send s d).timers ≡ s.timers
  unfolding send
  timers_sent s d = ground arith

  granted_is :
      (s : VoiceSession) (instructions : String) (reason : RenewalReason) (k : ℕ)
      (secret : ClientSecret)
      → InFlight instructions reason k s
      → cfg.has_timers ≡ true
      → mint_settles cfg now s (take_at 0 s.minting) (granted secret)
        ≡ arm
            (send
              (record s { minting = [] })
              (session_open (open_directive cfg now instructions secret)))
            cfg.ready_timeout_ms
            (awaiting_ready instructions)
  unfolding mint_settles after_mint after_sent
  granted_is s instructions reason k secret f t = rw (f.minting, t) refl

  -- After the secret: the wait for the window ends.
  unanswered_is :
      (s : VoiceSession) (instructions : String) (reason : RenewalReason) (k : ℕ)
      (secret : ClientSecret)
      → InFlight instructions reason k s
      → cfg.has_timers ≡ true
      → fails s (no_answer secret)
        ≡ back_off cfg
            (unarmed (
              send
                (record s { minting = [] })
                (session_open (open_directive cfg now instructions secret))))
            instructions
            (not_ready_within cfg.ready_timeout_ms)
            true
  unfolding fails handle
  unanswered_is s instructions reason k secret f t =
      let d = session_open (open_directive cfg now instructions secret) in
      let s0 : VoiceSession = send (record s { minting = [] }) d in
      ap (λ u. fires_slot u u.renew_timer) (granted_is s instructions reason k secret f t)
      ∙ slot_fires s0 cfg.ready_timeout_ms instructions
          (timers_sent (record s { minting = [] }) d ∙ f.timers)

  -- Either failure ends in `backOff`.
  pub fails_is :
      (s : VoiceSession) (instructions : String) (reason : RenewalReason) (k : ℕ) (e : Failure)
      → InFlight instructions reason k s
      → cfg.has_timers ≡ true
      → (u : VoiceSession) × (detail : Detail) × (fails s e
          ≡ back_off cfg u instructions detail true)
        × Settled reason k u
        × (u.out ≡ s.out)
  fails_is s instructions reason k (no_secret kind message) f t = (
    record s { minting = [] },
    said message,
    refused_is s instructions reason k kind message f,
    settled s instructions reason k f,
    refl,
  )
  fails_is s instructions reason k (no_answer secret) f t =
      let d = session_open (open_directive cfg now instructions secret) in
      let (after, same_out) =
        send-Settled (record s { minting = [] }) d reason k (settled s instructions reason k f) in
      (
        unarmed (send (record s { minting = [] }) d),
        not_ready_within cfg.ready_timeout_ms,
        unanswered_is s instructions reason k secret f t,
        after,
        same_out,
      )
