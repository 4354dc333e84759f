-- ===== src/Voice/Session/BackOff.antt =====
-- Backing off after an attempt to renew has failed, and attempting again.
use riki.Prelude.{
  ℕ, suc, ◌+◌, ◌≡◌, sym, subst, refl, Bool, true, false, List, [], ◌∷◌, ◌++◌, none, some, String,
  arith, count, count-append,
}
use riki.World.Timeline.{get_elem?}
use riki.Voice.Messages.{session_lost, VoiceSessionState, connecting, degraded, raised, VoiceConfig}
use riki.Voice.State.{
  RenewalReason, retrying, gave_up, Detail, next_attempt, renewing_for, retry, Output,
  reports_state, reports_fault, reports_renewal, emits, tells, asks_secret, VoiceSession, set_state,
  raise, or_lost, without_timer, cancel_renew_timer, arm, ask_secret,
}
use riki.Voice.Renewal.{attempt_renewal, give_up, back_off_after, back_off}

abbrev pub tells_player : Output → Bool
tells_player (tells n kind detail retryable) = true
tells_player (emits n (raised f)) = true
tells_player o = false

abbrev pub asks : Output → Bool
asks (asks_secret instructions) = true
asks o = false

-- How often the listeners were told of a fault, and how often a secret was asked for.
abbrev pub told : VoiceSession → ℕ
told s = count tells_player s.out

abbrev pub asked : VoiceSession → ℕ
asked s = count asks s.out

-- A renewal waits for its secret, after `k` failed attempts, and nothing else waits.
pub record InFlight (instructions : String) (reason : RenewalReason) (k : ℕ) (s : VoiceSession)
    : Type 0 where
  pub minting :
      s.minting ≡ (record { instructions = instructions; purpose = renewing_for reason }) ∷ []
  pub attempt : s.renew_attempt ≡ k
  pub reason_kept : s.renew_reason ≡ some reason
  pub timers : s.timers ≡ []
  pub slot : s.renew_timer ≡ none
  pub renewing : s.renewing ≡ true
  pub disposed : s.disposed ≡ false

-- It waits for its next attempt.
pub record Waiting (instructions : String) (reason : RenewalReason) (k : ℕ) (s : VoiceSession)
    : Type 0 where
  pub number : ℕ
  pub delay : ℕ
  pub slot : s.renew_timer ≡ some number
  pub timers :
      s.timers ≡ (record { number = number; delay = delay; deadline = retry instructions }) ∷ []
  pub minting : s.minting ≡ []
  pub attempt : s.renew_attempt ≡ k
  pub reason_kept : s.renew_reason ≡ some reason
  pub renewing : s.renewing ≡ true
  pub disposed : s.disposed ≡ false

-- It is over, and nothing waits.
pub record Over (s : VoiceSession) : Type 0 where
  pub renewing : s.renewing ≡ false
  pub minting : s.minting ≡ []
  pub timers : s.timers ≡ []
  pub slot : s.renew_timer ≡ none

module _ (p : Output → Bool) where
  count-two :
      (xs : List Output) (a b : Output)
      → count p (xs ++ a ∷ [] ++ b ∷ []) ≡ count p (b ∷ []) + (count p (a ∷ []) + count p xs)
  count-two xs a b =
      omega (arith, count-append p xs (a ∷ []), count-append p (xs ++ a ∷ []) (b ∷ []))

  pub count-one :
      (xs : List Output) (a : Output) → count p (xs ++ a ∷ []) ≡ count p (a ∷ []) + count p xs
  count-one xs a = omega (arith, count-append p xs (a ∷ []))

pub attempt-InFlight :
    (s : VoiceSession) (instructions : String) (reason : RenewalReason)
    → s.minting ≡ []
    → without_timer s.renew_timer s.timers ≡ []
    → s.renew_reason ≡ some reason
    → s.renewing ≡ true
    → s.disposed ≡ false
    → InFlight instructions reason s.renew_attempt (attempt_renewal s instructions)
      × (asked (attempt_renewal s instructions) ≡ suc (asked s))
      × (told (attempt_renewal s instructions) ≡ told s)
unfolding attempt_renewal set_state cancel_renew_timer ask_secret
attempt-InFlight s instructions reason m t r b d =
    let st = reports_state connecting in
    let ask = asks_secret instructions in
    (
      record {
        minting = ground (arith, m, r, d);
        attempt = ground (arith, d);
        reason_kept = ground (arith, r, d);
        timers = ground (arith, t, d);
        slot = ground (arith, d);
        renewing = ground (arith, b, d);
        disposed = ground (arith, d);
      },
      ground (arith, d, count-two asks s.out st ask, count-one asks s.out ask),
      ground (arith, d, count-two tells_player s.out st ask, count-one tells_player s.out ask),
    )

module _ (s : VoiceSession) (detail : Detail) where
  give_up-Over :
      s.minting ≡ [] → s.timers ≡ [] → s.renew_timer ≡ none → Over (give_up s detail true)
  unfolding give_up set_state raise
  give_up-Over m t n = record {
    renewing = ground arith;
    minting = ground (arith, m);
    timers = ground (arith, t);
    slot = ground (arith, n);
  }

  give_up-count :
      (p : Output → Bool)
      → ((o : VoiceSessionState) → p (reports_state o) ≡ false)
      → count p (give_up s detail true).out
        ≡ count p (
            reports_renewal gave_up (or_lost s.renew_reason) detail
            ∷ reports_fault session_lost detail
            ∷ tells s.listeners session_lost detail true
            ∷ [])
          + count p s.out
  unfolding give_up set_state raise
  give_up-count p q =
      let ren = reports_renewal gave_up (or_lost s.renew_reason) detail in
      let st = reports_state degraded in
      let end =
        reports_fault session_lost detail ∷ tells s.listeners session_lost detail true ∷ [] in
      ground (
        arith,
        q degraded,
        count-two p s.out ren st,
        count-one p s.out ren,
        count-append p (s.out ++ ren ∷ [] ++ st ∷ []) end,
        count-append p (s.out ++ ren ∷ []) end,
      )

-- What the two ends of a failed attempt start from.
pub record Settled (reason : RenewalReason) (k : ℕ) (s : VoiceSession) : Type 0 where
  pub minting : s.minting ≡ []
  pub attempt : s.renew_attempt ≡ k
  pub reason_kept : s.renew_reason ≡ some reason
  pub timers : s.timers ≡ []
  pub slot : s.renew_timer ≡ none
  pub renewing : s.renewing ≡ true
  pub disposed : s.disposed ≡ false

module _ (cfg : VoiceConfig) (s : VoiceSession) (instructions : String) (reason : RenewalReason)
    (k : ℕ) (detail : Detail) (f : Settled reason k s) (with_timers : cfg.has_timers ≡ true) where
  pub back_off-Waiting :
      (d : ℕ)
      → get_elem? cfg.backoff_ms k ≡ some d
      → Waiting instructions reason (suc k) (back_off cfg s instructions detail true)
        × (asked (back_off cfg s instructions detail true) ≡ asked s)
        × (told (back_off cfg s instructions detail true) ≡ told s)
  unfolding back_off back_off_after arm
  back_off-Waiting d e =
      let at : get_elem? cfg.backoff_ms s.renew_attempt ≡ some d =
        subst (λ n. get_elem? cfg.backoff_ms n ≡ some d) (sym f.attempt) e in
      let o =
        reports_renewal retrying (or_lost s.renew_reason)
          (next_attempt detail (s.renew_attempt + 1 + 1) d) in
      (
        record {
          number = s.timers_made;
          delay = d;
          slot = ground (arith, at, with_timers, f.disposed);
          timers = ground (arith, at, with_timers, f.disposed, f.timers);
          minting = ground (arith, at, with_timers, f.disposed, f.minting);
          attempt = ground (arith, at, with_timers, f.disposed, f.attempt);
          reason_kept = ground (arith, at, with_timers, f.disposed, f.reason_kept);
          renewing = ground (arith, at, with_timers, f.disposed, f.renewing);
          disposed = ground (arith, at, with_timers, f.disposed);
        },
        ground (arith, at, with_timers, f.disposed, count-one asks s.out o),
        ground (arith, at, with_timers, f.disposed, count-one tells_player s.out o),
      )

  pub back_off-Over :
      get_elem? cfg.backoff_ms k ≡ none
      → Over (back_off cfg s instructions detail true)
        × (asked (back_off cfg s instructions detail true) ≡ asked s)
        × (told (back_off cfg s instructions detail true) ≡ suc (told s))
  unfolding back_off back_off_after
  back_off-Over e =
      let at : get_elem? cfg.backoff_ms s.renew_attempt ≡ none =
        subst (λ n. get_elem? cfg.backoff_ms n ≡ none) (sym f.attempt) e in
      let s1 : VoiceSession = record s { renew_attempt = s.renew_attempt + 1 } in
      let gives_up : back_off cfg s instructions detail true ≡ give_up s1 detail true =
        rw at refl in
      subst (λ u. Over u × (asked u ≡ asked s) × (told u ≡ suc (told s))) (sym gives_up)
        (
          give_up-Over s1 detail f.minting f.timers f.slot,
          omega (arith, give_up-count s1 detail asks (λ o. refl)),
          omega (arith, give_up-count s1 detail tells_player (λ o. refl)),
        )

-- The state when the only timer that runs has fired.
abbrev pub unarmed : VoiceSession → VoiceSession
unarmed s = record s { timers = []; timers_made = s.timers_made + 1; renew_timer = none }
