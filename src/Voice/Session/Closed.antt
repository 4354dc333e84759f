-- ===== src/Voice/Session/Closed.antt =====
-- A session with no match, and what its calls keep so.
use riki.Prelude.{
  ℕ, ◌+◌, ◌≤◌, ◌≡◌, refl, Bool, true, false, List, [], ◌∷◌, Option, none, some, String, arith, all,
  filter, if◌then◌else◌, not, count, count-append, ◌==◌,
}
use riki.Realtime.Turn.{TurnEndReason, release, latch_tap, timeout, cancel}
use riki.Voice.Messages.{VoiceDirective, session_open, session_close, VoiceSessionState, idle}
use riki.Voice.State.{
  Mint, Deadline, scheduled, Timer, Call, answered, dispatched, Output, window_closed,
  reports_state, asks_secret, VoiceSession, report, set_state, send, on_ready, without_timer,
  cancel_renew_timer, stop_renewal,
}
use riki.Voice.Updates.{CallResult, returned, threw, call_settles}
use riki.Voice.Session.{
  close_match, note_end, start_dispose, dispose, finish_dispose, end_turn, deadline_of,
}

abbrev pub opens : VoiceDirective → Bool
opens (session_open o) = true
opens d = false

abbrev pub asks : Output → Bool
asks (asks_secret instructions) = true
asks o = false

abbrev pub is_scheduled : Timer → Bool
is_scheduled t = elim t.deadline [ scheduled ↦ true | _ ↦ false ]

-- The part of the state that a session could be opened from, and what was done.
abbrev pub Held : Type 0
Held =
    Option String × List Mint × List Timer × List VoiceDirective × List VoiceDirective × List Output

abbrev pub held : VoiceSession → Held
held s = (s.open_instructions, s.minting, s.timers, s.sent, s.queued, s.out)

-- How many directives to open a session were issued that are not dropped, and how often a secret was
-- asked for.
abbrev pub opened_count : VoiceSession → ℕ
opened_count s = count opens s.sent + count opens s.queued

abbrev pub asked_count : VoiceSession → ℕ
asked_count s = count asks s.out

-- No match is open, nothing waits for a secret, and only scheduled renewals are armed; `a` secrets
-- were asked for, and at most `o` directives to open a session were issued.
pub record ClosedAt (a o : ℕ) (h : Held) : Type 0 where
  pub no_match : h.0 ≡ none
  pub no_mint : h.1 ≡ []
  pub no_retry : all is_scheduled h.2 ≡ true
  pub none_opened : count opens h.3 + count opens h.4 ≤ o
  pub asked_as_before : count asks h.5 ≡ a

abbrev pub Closed : ℕ → ℕ → VoiceSession → Type 0
Closed a o s = ClosedAt a o (held s)

all-filter : (p q : Timer → Bool) (xs : List Timer) → all p xs ≡ true → all p (filter q xs) ≡ true
all-filter p q [] h = refl
all-filter p q (x ∷ xs) h = ground (arith, h, all-filter p q xs)

pub without_timer-scheduled :
    (n : Option ℕ) (ts : List Timer)
    → all is_scheduled ts ≡ true
    → all is_scheduled (without_timer n ts) ≡ true
without_timer-scheduled none ts h = h
without_timer-scheduled (some n) ts h = all-filter is_scheduled (λ t. not (t.number == n)) ts h

pub deadline-scheduled :
    (n : ℕ) (ts : List Timer) (d : Deadline)
    → all is_scheduled ts ≡ true
    → deadline_of n ts ≡ some d
    → d ≡ scheduled
deadline-scheduled n [] d h e = absurd (ground arith)
deadline-scheduled n (t ∷ ts) d h e = ground (arith, deadline-scheduled n ts d, h, e)

module _ (a o : ℕ) where
  pub report-Closed :
      (s : VoiceSession) (xs : List Output)
      → count asks xs ≡ 0
      → Closed a o s
      → Closed a o (report s xs)
  report-Closed s xs e c = record {
    no_match = c.no_match;
    no_mint = c.no_mint;
    no_retry = c.no_retry;
    none_opened = c.none_opened;
    asked_as_before = omega (arith, c.asked_as_before, e, count-append asks s.out xs);
  }

  pub set_state-Closed :
      (s : VoiceSession) (next : VoiceSessionState) → Closed a o s → Closed a o (set_state s next)
  unfolding set_state
  set_state-Closed s next c =
      ground (arith, c, report-Closed (record s { state = next }) (reports_state next ∷ []) refl c)

  pub send-Closed :
      (s : VoiceSession) (d : VoiceDirective)
      → opens d ≡ false
      → Closed a o s
      → Closed a o (send s d)
  unfolding send
  send-Closed s d e c = record {
    no_match = ground (arith, c.no_match);
    no_mint = ground (arith, c.no_mint);
    no_retry = ground (arith, c.no_retry);
    none_opened = ground (
      arith,
      e,
      c.none_opened,
      count-append opens s.sent (d ∷ []),
      count-append opens s.queued (d ∷ []),
    );
    asked_as_before = ground (arith, c.asked_as_before);
  }

  pub on_ready-Closed : (s : VoiceSession) → Closed a o s → Closed a o (on_ready s)
  unfolding on_ready
  on_ready-Closed s c = record {
    no_match = c.no_match;
    no_mint = c.no_mint;
    no_retry = c.no_retry;
    none_opened = ground (arith, c.none_opened, count-append opens s.sent s.queued);
    asked_as_before = c.asked_as_before;
  }

  pub cancel_renew_timer-Closed :
      (s : VoiceSession) → Closed a o s → Closed a o (cancel_renew_timer s)
  unfolding cancel_renew_timer
  cancel_renew_timer-Closed s c = record {
    no_match = c.no_match;
    no_mint = c.no_mint;
    no_retry = without_timer-scheduled s.renew_timer s.timers c.no_retry;
    none_opened = c.none_opened;
    asked_as_before = c.asked_as_before;
  }

  pub close_match-Closed :
      (s : VoiceSession) (reason : String) → Closed a o s → Closed a o (close_match s reason)
  unfolding close_match stop_renewal
  close_match-Closed s reason c =
      let c1 = cancel_renew_timer-Closed s c in
      let c2 : Closed a o (stop_renewal s) = record {
        no_match = refl;
        no_mint = c1.no_mint;
        no_retry = c1.no_retry;
        none_opened = c1.none_opened;
        asked_as_before = c1.asked_as_before;
      } in
      set_state-Closed _ idle (send-Closed (stop_renewal s) (session_close reason) refl c2)

  pub dispose-Closed : (s : VoiceSession) → Closed a o s → Closed a o (dispose s)
  unfolding dispose start_dispose
  dispose-Closed s c =
      ground (arith, c, close_match-Closed (record s { disposed = true }) "app quitting" c)

  pub finish_dispose-Closed : (s : VoiceSession) → Closed a o s → Closed a o (finish_dispose s)
  unfolding finish_dispose
  finish_dispose-Closed s c =
      let closing : List Output = if s.window then window_closed ∷ [] else [] in
      let s1 : VoiceSession = record s {
        window = false;
        window_ready = false;
        queued = [];
        listeners = 0;
        disposing = false;
      } in
      let c1 : Closed a o s1 = record {
        no_match = c.no_match;
        no_mint = c.no_mint;
        no_retry = c.no_retry;
        none_opened = omega (arith, c.none_opened);
        asked_as_before = c.asked_as_before;
      } in
      let quiet : count asks closing ≡ 0 = ground arith in
      ground
        (arith, c, set_state-Closed (report s1 closing) idle (report-Closed s1 closing quiet c1))

  pub end_turn-Closed :
      (s : VoiceSession) (turn : String) (reason : TurnEndReason) (text : String)
      → Closed a o s
      → Closed a o (end_turn s turn reason text)
  unfolding end_turn
  end_turn-Closed s turn cancel text c = send-Closed s _ refl c
  end_turn-Closed s turn release text c =
      send-Closed (note_end s turn release) _ refl (report-Closed s _ refl c)
  end_turn-Closed s turn latch_tap text c =
      send-Closed (note_end s turn latch_tap) _ refl (report-Closed s _ refl c)
  end_turn-Closed s turn timeout text c =
      send-Closed (note_end s turn timeout) _ refl (report-Closed s _ refl c)

  pub call_settles-Closed :
      (s : VoiceSession) (taken : Option (Call × List Call)) (r : CallResult)
      → Closed a o s
      → Closed a o (call_settles s taken r)
  unfolding call_settles
  call_settles-Closed s none r c = c
  call_settles-Closed s (some (answered call answer, rest)) r c =
      send-Closed (record s { calls = rest }) _ refl c
  call_settles-Closed s (some (dispatched call name, rest)) (returned value) c =
      send-Closed (record s { calls = rest }) _ refl c
  call_settles-Closed s (some (dispatched call name, rest)) (threw message) c =
      send-Closed (record s { calls = rest }) _ refl c
