-- ===== src/Sources/Supervisor/Runs.antt =====
-- Runs of the supervisor of supervisor.ts.
use riki.Prelude.{
  ℕ, zero, suc, ◌+◌, ◌≤◌, ◌<◌, ◌≡◌, ◌≢◌, refl, inl, inr, Bool, true, false, not, ◌&&◌, ◌||◌, List,
  [], ◌∷◌, ◌++◌, some, String, arith, ◌==◌, any, any-append, ap, ◌∙◌, map, filter, Bool-cases,
}
use riki.Sources.Supervisor.{
  Entry, Step, detach, launch, exited, start_resolved, start_threw, timer_fired, schedule_restart,
  is_some, at_index, Supervisor, Event, adds, starts, stops, exits, fails, resolves, fires, handle,
  run, add, start, stop,
}
use riki.Sources.Supervisor.Entries.{
  IsSound, is_detached, detach-IsSound, launch-IsSound, exited-IsSound, start_resolved-IsSound,
  threw_of-IsSound, timer_fired-IsSound, detach-is_detached, stopped-exited, stopped-threw_of,
  stopped-start_resolved, stopped-timer_fired,
}

module _ (P : Entry → Type 0) where
  abbrev pub Every : List Entry → Type 0
  Every [] = Unit {0}
  Every (e ∷ es) = P e × Every es

  Every-map :
      (f : Entry → Entry)
      → ((e : Entry) → P e → P (f e))
      → (es : List Entry) → Every es
      → Every (map f es)
  Every-map f keeps [] h = h
  Every-map f keeps (e ∷ es) h = (keeps e h.0, Every-map f keeps es h.1)

  Every-at_index :
      (f : Entry → Step)
      → ((e : Entry) → P e → P (f e).0)
      → (i : ℕ) (es : List Entry) → Every es
      → Every (at_index f i es).0
  unfolding at_index
  Every-at_index f keeps i [] h = h
  Every-at_index f keeps zero (e ∷ es) h = (keeps e h.0, h.1)
  Every-at_index f keeps (suc i) (e ∷ es) h = (h.0, Every-at_index f keeps i es h.1)

  Every-snoc : (es : List Entry) (e : Entry) → Every es → P e → Every (es ++ e ∷ [])
  Every-snoc [] e h k = (k, tt)
  Every-snoc (x ∷ es) e h k = (h.0, Every-snoc es e h.1 k)

handle-IsSound :
    (s : Supervisor) (v : Event) → Every IsSound s.entries → Every IsSound (handle s v).entries
unfolding handle add start stop
handle-IsSound s (adds id can_exit policy) h =
    Every-snoc IsSound s.entries _ h
      (record { counted = refl; bounded = omega arith; never = inr refl; ending = tt })
handle-IsSound s starts h = elim (Bool-cases s.running) [
  | inl on ↦ rw on h
  | inr off ↦ rw off (Every-map IsSound (launch true) (launch-IsSound true) s.entries h)
]
handle-IsSound s stops h = elim (Bool-cases s.running) [
  | inl on ↦ rw on (Every-map IsSound detach detach-IsSound s.entries h)
  | inr off ↦ rw off h
]
handle-IsSound s (exits i reason) h =
    Every-at_index IsSound (λ e. exited s.running e reason)
      (λ e v. exited-IsSound s.running e reason v) i s.entries h
handle-IsSound s (fails i reason) h =
    Every-at_index IsSound (λ e. start_threw s.running e reason)
      (λ e v. threw_of-IsSound e.starting s.running e reason v) i s.entries h
handle-IsSound s (resolves i) h =
    Every-at_index IsSound start_resolved start_resolved-IsSound i s.entries h
handle-IsSound s (fires i t) h =
    Every-at_index IsSound (λ e. (timer_fired s.running e t, []))
      (λ e v. timer_fired-IsSound s.running e t v) i s.entries h

-- From a supervisor whose sources satisfy it, as one without any, and whatever happens, in whatever
-- order: each source has had as many restart timers set as restarts were counted for it, which is
-- never more than its policy allows, and none if the policy forbids it; and if it is given up, then
-- because its policy forbids restarts, or because its attempts are used up.
pub run-IsSound :
    (s : Supervisor) (vs : List Event) → Every IsSound s.entries → Every IsSound (run s vs).entries
unfolding run
run-IsSound s [] h = h
run-IsSound s (v ∷ vs) h = run-IsSound (handle s v) vs (handle-IsSound s v h)

abbrev pub Detached : Entry → Type 0
Detached e = is_detached e ≡ true

abbrev pub is_start : Event → Bool
is_start starts = true
is_start _ = false

handle-Detached :
    (s : Supervisor) (v : Event)
    → s.running ≡ false
    → is_start v ≡ false
    → Every Detached s.entries
    → ((handle s v).running ≡ false) × Every Detached (handle s v).entries
unfolding handle add start stop
handle-Detached s (adds id can_exit policy) off n h = (off, Every-snoc Detached s.entries _ h refl)
handle-Detached s starts off n h = cc
handle-Detached s stops off n h = rw off (refl, h)
handle-Detached s (exits i reason) off n h = (
  off,
  rw off (
      Every-at_index Detached (λ e. exited false e reason) (λ e d. stopped-exited e reason d) i
        s.entries h),
)
handle-Detached s (fails i reason) off n h = (
  off,
  rw off (
      Every-at_index Detached (λ e. start_threw false e reason)
        (λ e d. stopped-threw_of e.starting e reason d) i s.entries h),
)
handle-Detached s (resolves i) off n h =
    (off, Every-at_index Detached start_resolved stopped-start_resolved i s.entries h)
handle-Detached s (fires i t) off n h = (
  off,
  rw off (
      Every-at_index Detached (λ e. (timer_fired false e t, [])) (λ e d. stopped-timer_fired e t d)
        i s.entries h),
)

run-Detached :
    (s : Supervisor) (vs : List Event)
    → s.running ≡ false
    → any is_start vs ≡ false
    → Every Detached s.entries
    → ((run s vs).running ≡ false) × Every Detached (run s vs).entries
unfolding run
run-Detached s [] off n h = (off, h)
run-Detached s (v ∷ vs) off n h =
    let (not_v, not_vs) : (is_start v ≡ false) × (any is_start vs ≡ false) = ground arith in
    let (off', h') = handle-Detached s v off not_v h in run-Detached (handle s v) vs off' not_vs h'

any_entry-Detached : (es : List Entry) → Every Detached (map detach es)
any_entry-Detached [] = tt
any_entry-Detached (e ∷ es) = (detach-is_detached e, any_entry-Detached es)

-- A supervisor that is stopped stays stopped until it is started: whatever timers fire and whatever
-- launches end after `stop`, no source is subscribed to again and no restart is scheduled.
pub stopped_stays_stopped :
    (s : Supervisor) (vs : List Event)
    → s.running ≡ true
    → any is_start vs ≡ false
    → let after = run s (stops ∷ vs) in (after.running ≡ false) × Every Detached after.entries
unfolding run handle stop
stopped_stays_stopped s vs on n = rw on (
    run-Detached (record s { running = false; entries = map detach s.entries }) vs refl n
      (any_entry-Detached s.entries))

-- The entry after an exit that has a restart scheduled.
abbrev rescheduled : Entry → Entry
rescheduled e = record e {
  restarts = e.restarts + 1;
  pending = some e.timers_made;
  timers = e.timers ++ e.timers_made ∷ [];
  timers_made = e.timers_made + 1;
}

abbrev pub may_restart : Entry → Bool
may_restart e = e.can_exit && e.subscribed && e.policy.restart && not (is_some e.gave_up)

exited-rescheduled :
    (e : Entry) (reason : String)
    → may_restart e ≡ true
    → e.restarts < e.policy.max_attempts
    → (exited true e reason).0 ≡ rescheduled e
unfolding exited schedule_restart
exited-rescheduled e reason h room = ground arith

any-other :
    (n m : ℕ) (xs : List ℕ)
    → n ≢ m
    → any (λ t. t == n) (filter (λ u. not (u == m)) xs) ≡ any (λ t. t == n) xs
any-other n m [] d = refl
any-other n m (x ∷ xs) d = ground (arith, any-other n m xs d)

any-last : (n : ℕ) (xs : List ℕ) → any (λ t. t == n) (xs ++ n ∷ []) ≡ true
any-last n xs = ground (arith, any-append (λ t. t == n) xs (n ∷ []))

-- A source that announces two exits before its restart comes has two restarts scheduled, if its
-- policy allows them, of which the entry remembers only the second: after `stop` the timer of the
-- first still runs.
pub two_exits_leave_timer :
    (e : Entry) (once twice : String)
    → may_restart e ≡ true
    → e.restarts + 2 ≤ e.policy.max_attempts
    → let second = (exited true (exited true e once).0 twice).0 in
      (second.restarts ≡ e.restarts + 2)
      × (any (λ t. t == e.timers_made) second.timers ≡ true)
      × (any (λ t. t == e.timers_made) (detach second).timers ≡ true)
unfolding detach
two_exits_leave_timer e once twice h room =
    let first = rescheduled e in
    let n = e.timers_made in
    let eq : (exited true (exited true e once).0 twice).0 ≡ rescheduled first =
      ap (λ x. (exited true x twice).0) (exited-rescheduled e once h (omega arith))
      ∙ exited-rescheduled first twice h (omega arith) in
    let there : any (λ t. t == n) (rescheduled first).timers ≡ true =
      any-append (λ t. t == n) first.timers ((n + 1) ∷ [])
      ∙ ap (λ b. b || any (λ t. t == n) ((n + 1) ∷ [])) (any-last n e.timers) in
    (
      ap (λ x. x.restarts) eq ∙ omega arith,
      ap (λ x. any (λ t. t == n) x.timers) eq ∙ there,
      ap (λ x. any (λ t. t == n) (detach x).timers) eq
          ∙ any-other n (n + 1) (rescheduled first).timers (λ q. omega (arith, q))
          ∙ there,
    )
