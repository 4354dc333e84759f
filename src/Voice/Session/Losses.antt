-- ===== src/Voice/Session/Losses.antt =====
-- A session that is reported lost more than once.
use riki.Prelude.{
  ℕ, suc, ◌≡◌, ◌∙◌, ap, sym, subst, refl, some, Bool, true, false, List, [], ◌∷◌, Option, String,
  arith, Option-cases, same, ◌&&◌, all, map,
}
use riki.Voice.Messages.{
  session_lost, VoiceFaultKind-discrete, VoiceFault, fault, event, VoiceConfig,
}
use riki.Voice.State.{
  VoiceSession, set_state, is_some, cancel_renew_timer, ask_secret, lost, without_timer,
}
use riki.Voice.Renewal.{is_renewable, attempt_renewal, renew_open, renew}
use riki.Voice.Updates.{on_event, on_update}
use riki.Voice.Session.{Input, updates, handle, run}
use riki.Voice.Session.BackOff.{
  InFlight, asked, told, asks, tells_player, count-one, attempt-InFlight,
}
use riki.Voice.Session.Attempts.{begun, begun_report, lost_is, not_disposed}

-- The fault of a session that ended, of the kind that a new session repairs.
abbrev pub is_loss : VoiceFault → Bool
is_loss f = same VoiceFaultKind-discrete f.kind session_lost && f.retryable

abbrev pub reports : ℕ → List VoiceFault → List (ℕ × Input)
reports now fs = map (λ f. (now, updates (event (fault f)))) fs

module _ (cfg : VoiceConfig) (turn_name : ℕ → String) (unreadable : String → String → Option String)
    (now : ℕ) where
  -- A renewal runs for the match that is open.
  record Renewing (s : VoiceSession) : Type 0 where
    renewing : s.renewing ≡ true
    match_open : is_some s.open_instructions ≡ true
    keyed : cfg.has_key ≡ true
    not_disposed : s.disposed ≡ false

  loss_joins :
      (s : VoiceSession) (f : VoiceFault)
      → Renewing s
      → is_loss f ≡ true
      → handle cfg turn_name unreadable s now (updates (event (fault f))) ≡ s
  unfolding handle on_update on_event is_renewable renew renew_open
  loss_joins s f r l = ground (
    arith,
    l,
    r.renewing,
    r.match_open,
    r.keyed,
    r.not_disposed,
    Option-cases s.open_instructions,
  )

  losses_join :
      (s : VoiceSession) (fs : List VoiceFault)
      → Renewing s
      → all is_loss fs ≡ true
      → run cfg turn_name unreadable s (reports now fs) ≡ s
  unfolding run
  losses_join s [] r l = refl
  losses_join s (f ∷ fs) r l =
      ap (λ t. run cfg turn_name unreadable t (reports now fs))
        (loss_joins s f r (ground (arith, l)))
      ∙ losses_join s fs r (ground (arith, l))

  begins-Renewing :
      (s : VoiceSession) (f : VoiceFault)
      → is_renewable cfg s f ≡ true
      → Renewing (handle cfg turn_name unreadable s now (updates (event (fault f))))
  unfolding handle on_update on_event is_renewable renew renew_open attempt_renewal set_state
      cancel_renew_timer ask_secret
  begins-Renewing s f r =
      let opened = Option-cases s.open_instructions in
      record {
        renewing = ground (arith, r, opened);
        match_open = ground (arith, r, opened);
        keyed = ground (arith, r);
        not_disposed = ground (arith, r, opened);
      }

  -- The session of a match that is open is lost, and the loss is one that a new session repairs, while
  -- no renewal runs, no secret is on its way and no timer waits but that of the scheduled renewal.
  -- However often it is then reported, as when the session expires and its transport closes too, the
  -- reports after the first change nothing, and afterwards a renewal is on its first attempt, one
  -- secret has been asked for, and the player was told nothing.
  pub reports-lost :
      (s : VoiceSession) (instructions : String) (f : VoiceFault) (fs : List VoiceFault)
      → is_renewable cfg s f ≡ true
      → s.open_instructions ≡ some instructions
      → s.renewing ≡ false
      → s.minting ≡ []
      → without_timer s.renew_timer s.timers ≡ []
      → all is_loss fs ≡ true
      → let after = run cfg turn_name unreadable s (reports now (f ∷ fs)) in
        (after ≡ run cfg turn_name unreadable s (reports now (f ∷ [])))
        × InFlight instructions lost 0 after
        × (asked after ≡ suc (asked s))
        × (told after ≡ told s)
  unfolding run
  reports-lost s instructions f fs r o b m w l =
      let joined = losses_join _ fs (begins-Renewing s f r) l in
      let (flying, a, t) =
        attempt-InFlight (begun cfg turn_name unreadable now s f) instructions lost m w refl refl
          (not_disposed cfg turn_name unreadable now s f r) in
      let (flying', a', t') =
        subst (λ v. InFlight instructions lost 0 v × (asked v ≡ suc (asked s)) × (told v ≡ told s))
          (sym (joined ∙ lost_is cfg turn_name unreadable now s instructions f r o b))
          (
            flying,
            omega (arith, a, count-one asks s.out (begun_report cfg turn_name unreadable now f)),
            omega (
              arith,
              t,
              count-one tells_player s.out (begun_report cfg turn_name unreadable now f),
            ),
          ) in
      (joined, flying', a', t')
