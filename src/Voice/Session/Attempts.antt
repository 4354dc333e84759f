-- ===== src/Voice/Session/Attempts.antt =====
-- A renewal whose attempts fail, one after another.
use riki.Prelude.{
  ℕ, suc, ◌+◌, ◌≡◌, ◌∙◌, ap, sym, subst, refl, true, false, List, [], ◌∷◌, Option, none, some,
  String, arith, count, length,
}
use riki.World.Timeline.{get_elem?}
use riki.Voice.Messages.{VoiceFault, fault, event, VoiceConfig}
use riki.Voice.State.{
  RenewalReason, lost, started, said, Output, reports_renewal, VoiceSession, report, without_timer,
}
use riki.Voice.Renewal.{is_renewable, attempt_renewal, renew_open, renew}
use riki.Voice.Updates.{on_event, on_update}
use riki.Voice.Session.{updates, handle}
use riki.Voice.Session.BackOff.{
  tells_player, asks, told, asked, InFlight, Waiting, Over, count-one, attempt-InFlight,
  back_off-Waiting, back_off-Over,
}
use riki.Voice.Session.Failing.{
  Failure, get_elem-some, get_elem-none, fires_slot, fails, all_fail, fires_slot-retry, fails_is,
}

module _ (cfg : VoiceConfig) (turn_name : ℕ → String) (unreadable : String → String → Option String)
    (now : ℕ) where
  fails-Waiting :
      (s : VoiceSession) (instructions : String) (reason : RenewalReason) (k d : ℕ) (e : Failure)
      → InFlight instructions reason k s
      → cfg.has_timers ≡ true
      → get_elem? cfg.backoff_ms k ≡ some d
      → Waiting instructions reason (suc k) (fails cfg turn_name unreadable now s e)
        × (asked (fails cfg turn_name unreadable now s e) ≡ asked s)
        × (told (fails cfg turn_name unreadable now s e) ≡ told s)
  fails-Waiting s instructions reason k d e f t g =
      let (u, detail, is, g', o) =
        fails_is cfg turn_name unreadable now s instructions reason k e f t in
      let (w, a, b) = back_off-Waiting cfg u instructions reason k detail g' t d g in
      subst (λ v. Waiting instructions reason (suc k) v × (asked v ≡ asked s) × (told v ≡ told s))
        (sym is) (w, a ∙ ap (count asks) o, b ∙ ap (count tells_player) o)

  fails-Over :
      (s : VoiceSession) (instructions : String) (reason : RenewalReason) (k : ℕ) (e : Failure)
      → InFlight instructions reason k s
      → cfg.has_timers ≡ true
      → get_elem? cfg.backoff_ms k ≡ none
      → Over (fails cfg turn_name unreadable now s e)
        × (asked (fails cfg turn_name unreadable now s e) ≡ asked s)
        × (told (fails cfg turn_name unreadable now s e) ≡ suc (told s))
  fails-Over s instructions reason k e f t g =
      let (u, detail, is, g', o) =
        fails_is cfg turn_name unreadable now s instructions reason k e f t in
      let (w, a, b) = back_off-Over cfg u instructions reason k detail g' t g in
      subst (λ v. Over v × (asked v ≡ asked s) × (told v ≡ suc (told s))) (sym is)
        (w, a ∙ ap (count asks) o, b ∙ ap (λ xs. suc (count tells_player xs)) o)

  fires_slot-InFlight :
      (s : VoiceSession) (instructions : String) (reason : RenewalReason) (k : ℕ)
      → Waiting instructions reason k s
      → InFlight instructions reason k (fires_slot cfg turn_name unreadable now s s.renew_timer)
        × (asked (fires_slot cfg turn_name unreadable now s s.renew_timer) ≡ suc (asked s))
        × (told (fires_slot cfg turn_name unreadable now s s.renew_timer) ≡ told s)
  fires_slot-InFlight s instructions reason k w =
      let fired : VoiceSession = record s { timers = []; renew_timer = none } in
      let (f, a, b) =
        attempt-InFlight fired instructions reason w.minting refl w.reason_kept w.renewing
          w.disposed in
      subst (λ v. InFlight instructions reason k v × (asked v ≡ suc (asked s)) × (told v ≡ told s))
        (sym (fires_slot-retry cfg turn_name unreadable now s instructions reason k w))
        (
          subst (λ n. InFlight instructions reason n (attempt_renewal fired instructions)) w.attempt
              f,
          a,
          b,
        )

  -- With timers, and once `k` attempts of a renewal have failed while nothing else waits: if as many more
  -- fail in a row as the delays allow, each because no secret comes for now or because the window
  -- does not become ready in time, then the renewal is over, with no secret asked for and no timer
  -- left, a secret was asked for once for each delay that was left, and the player was told once.
  all_fail-Over :
      (s : VoiceSession) (instructions : String) (reason : RenewalReason) (k : ℕ) (e : Failure)
      (es : List Failure)
      → InFlight instructions reason k s
      → cfg.has_timers ≡ true
      → length es + k ≡ length cfg.backoff_ms
      → Over (all_fail cfg turn_name unreadable now s (e ∷ es))
        × (asked (all_fail cfg turn_name unreadable now s (e ∷ es)) ≡ length es + asked s)
        × (told (all_fail cfg turn_name unreadable now s (e ∷ es)) ≡ suc (told s))
  unfolding all_fail
  all_fail-Over s instructions reason k e [] f t n =
      let k_is : k ≡ length cfg.backoff_ms = omega (arith, n) in
      let (w, a, b) = fails-Over s instructions reason k e f t (
        subst (λ m. get_elem? cfg.backoff_ms m ≡ none) (sym k_is) (get_elem-none cfg.backoff_ms)) in
      subst
        (λ v.
          Over (fires_slot cfg turn_name unreadable now (fails cfg turn_name unreadable now s e) v)
          × (asked
                (fires_slot cfg turn_name unreadable now (fails cfg turn_name unreadable now s e) v)
              ≡ 0 + asked s)
          × (told
                (fires_slot cfg turn_name unreadable now (fails cfg turn_name unreadable now s e) v)
              ≡ suc (told s)))
        (sym w.slot) (w, omega (arith, a), b)
  all_fail-Over s instructions reason k e (e' ∷ es) f t n =
      let (d, g) = get_elem-some cfg.backoff_ms k (omega (arith, n)) in
      let (w, a, b) = fails-Waiting s instructions reason k d e f t g in
      let (f', a', b') =
        fires_slot-InFlight (fails cfg turn_name unreadable now s e) instructions reason (suc k)
          w in
      let (over, a'', b'') =
        all_fail-Over
          (fires_slot cfg turn_name unreadable now (fails cfg turn_name unreadable now s e)
            (fails cfg turn_name unreadable now s e).renew_timer)
          instructions reason (suc k) e' es f' t (omega (arith, n)) in
      (over, omega (arith, a, a', a''), omega (arith, b, b', b''))

  abbrev pub begun_report : VoiceFault → Output
  begun_report f = reports_renewal started lost (said f.message)

  -- A renewal that has begun for a session that is lost.
  abbrev pub begun : VoiceSession → VoiceFault → VoiceSession
  begun s f =
      report (record s { renewing = true; renew_attempt = 0; renew_reason = some lost })
        (begun_report f ∷ [])

  pub not_disposed :
      (s : VoiceSession) (f : VoiceFault) → is_renewable cfg s f ≡ true → s.disposed ≡ false
  unfolding is_renewable
  not_disposed s f r = ground (arith, r)

  keyed : (s : VoiceSession) (f : VoiceFault) → is_renewable cfg s f ≡ true → cfg.has_key ≡ true
  unfolding is_renewable
  keyed s f r = ground (arith, r)

  pub lost_is :
      (s : VoiceSession) (instructions : String) (f : VoiceFault)
      → is_renewable cfg s f ≡ true
      → s.open_instructions ≡ some instructions
      → s.renewing ≡ false
      → handle cfg turn_name unreadable s now (updates (event (fault f)))
        ≡ attempt_renewal (begun s f) instructions
  unfolding handle on_update on_event renew renew_open
  lost_is s instructions f r o b = ground (arith, r, o, b, keyed s f r, not_disposed s f r)

  -- The session of a match is lost, with timers and a key, while no renewal runs and nothing waits but
  -- the scheduled one. If then every attempt fails, the first and one for each delay, whether for
  -- lack of a secret or of an answer of the window, the renewal is over with nothing left that
  -- waits, a secret was asked for once for each attempt, and the player was told of exactly one
  -- fault.
  pub lost-Over :
      (s : VoiceSession) (instructions : String) (f : VoiceFault) (e : Failure) (es : List Failure)
      → is_renewable cfg s f ≡ true
      → s.open_instructions ≡ some instructions
      → s.renewing ≡ false
      → s.minting ≡ []
      → without_timer s.renew_timer s.timers ≡ []
      → cfg.has_timers ≡ true
      → length es ≡ length cfg.backoff_ms
      → let lost_then =
          all_fail cfg turn_name unreadable now
            (handle cfg turn_name unreadable s now (updates (event (fault f))))
            (e ∷ es) in
        Over lost_then
        × (asked lost_then ≡ suc (length es) + asked s)
        × (told lost_then ≡ suc (told s))
  lost-Over s instructions f e es r o b m w t n =
      let s1 : VoiceSession = begun s f in
      let (f', a', b') = attempt-InFlight s1 instructions lost m w refl refl (not_disposed s f r) in
      let (over, a, b'') =
        all_fail-Over (attempt_renewal s1 instructions) instructions lost 0 e es f' t
          (omega (arith, n)) in
      subst
        (λ v.
          Over (all_fail cfg turn_name unreadable now v (e ∷ es))
          × (asked (all_fail cfg turn_name unreadable now v (e ∷ es)) ≡ suc (length es) + asked s)
          × (told (all_fail cfg turn_name unreadable now v (e ∷ es)) ≡ suc (told s)))
        (sym (lost_is s instructions f r o b))
        (
          over,
          omega (arith, a, a', count-one asks s.out (begun_report f)),
          omega (arith, b'', b', count-one tells_player s.out (begun_report f)),
        )
