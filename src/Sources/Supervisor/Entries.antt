-- ===== src/Sources/Supervisor/Entries.antt =====
-- The invariant of an entry of supervisor.ts, and what each of its steps keeps.
use riki.Prelude.{
  ℕ, zero, suc, ◌≤◌, ◌≡◌, refl, ◌⊎◌, inl, inr, Bool, true, false, not, ◌&&◌, Option, none, some,
  String, arith, ◌==◌, any, Bool-cases,
}
use riki.Sources.Supervisor.{
  RestartPolicy, GaveUp, forbidden, exhausted, Entry, detach, launch, exited, start_resolved,
  threw_of, timer_fired, schedule_restart, is_some, stop_timer,
}

-- Why an entry was given up agrees with its policy.
abbrev pub EndingFits : RestartPolicy → ℕ → Option GaveUp → Type 0
EndingFits policy restarts none = Unit {0}
EndingFits policy restarts (some (forbidden reason)) = policy.restart ≡ false
EndingFits policy restarts (some (exhausted n reason)) =
    (n ≡ restarts) × (restarts ≡ policy.max_attempts)

-- `timers_made` counts the restarts that were really scheduled, each by a timer of its own.
pub record IsSound (e : Entry) : Type 0 where
  pub counted : e.timers_made ≡ e.restarts
  pub bounded : e.restarts ≤ e.policy.max_attempts
  pub never : (e.policy.restart ≡ true) ⊎ (e.restarts ≡ 0)
  pub ending : EndingFits e.policy e.restarts e.gave_up

-- Nothing of the source reaches the supervisor.
abbrev pub is_detached : Entry → Bool
is_detached e = not e.subscribed && not (is_some e.pending)

pub schedule_restart-IsSound :
    (running : Bool) (e : Entry) (reason : String)
    → IsSound e
    → IsSound (schedule_restart running e reason).0
unfolding schedule_restart
schedule_restart-IsSound running e reason v = record {
  counted = ground (arith, v.counted);
  bounded = ground (arith, v.bounded);
  never = ground (arith, v.never);
  ending = ground (arith, v.ending, v.bounded);
}

pub detach-IsSound : (e : Entry) → IsSound e → IsSound (detach e)
unfolding detach
detach-IsSound e v = record {
  counted = v.counted;
  bounded = v.bounded;
  never = v.never;
  ending = v.ending;
}

pub launch-IsSound : (running : Bool) (e : Entry) → IsSound e → IsSound (launch running e)
unfolding launch detach
launch-IsSound running e v = record {
  counted = ground (arith, v.counted);
  bounded = ground (arith, v.bounded);
  never = ground (arith, v.never);
  ending = ground (arith, v.ending);
}

pub exited-IsSound :
    (running : Bool) (e : Entry) (reason : String) → IsSound e → IsSound (exited running e reason).0
unfolding exited
exited-IsSound running e reason v = elim (Bool-cases (e.can_exit && e.subscribed)) [
  | inl h ↦ rw h (schedule_restart-IsSound running e reason v)
  | inr h ↦ rw h v
]

pub start_resolved-IsSound : (e : Entry) → IsSound e → IsSound (start_resolved e).0
unfolding start_resolved
start_resolved-IsSound e v = record {
  counted = ground (arith, v.counted);
  bounded = ground (arith, v.bounded);
  never = ground (arith, v.never);
  ending = ground (arith, v.ending);
}

pub threw_of-IsSound :
    (waiting : ℕ) (running : Bool) (e : Entry) (reason : String)
    → IsSound e
    → IsSound (threw_of waiting running e reason).0
unfolding threw_of
threw_of-IsSound zero running e reason v = v
threw_of-IsSound (suc n) running e reason v =
    schedule_restart-IsSound running (detach (record e { starting = n })) reason (
      detach-IsSound (record e { starting = n })
        (record { counted = v.counted; bounded = v.bounded; never = v.never; ending = v.ending }))

pub timer_fired-IsSound :
    (running : Bool) (e : Entry) (t : ℕ) → IsSound e → IsSound (timer_fired running e t)
unfolding timer_fired
timer_fired-IsSound running e t v =
    let fired : Entry = record e { timers = stop_timer (some t) e.timers; pending = none } in
    elim (Bool-cases (any (λ u. u == t) e.timers)) [
      | inl h ↦ rw h (
          launch-IsSound running fired (record {
            counted = v.counted;
            bounded = v.bounded;
            never = v.never;
            ending = v.ending;
          }))
      | inr h ↦ rw h v
    ]

-- While the supervisor is stopped, a step leaves an entry detached that is.
pub detach-is_detached : (e : Entry) → is_detached (detach e) ≡ true
unfolding detach
detach-is_detached e = refl

pub stopped-exited :
    (e : Entry) (reason : String)
    → is_detached e ≡ true
    → is_detached (exited false e reason).0 ≡ true
unfolding exited schedule_restart
stopped-exited e reason h = ground arith

pub stopped-threw_of :
    (waiting : ℕ) (e : Entry) (reason : String)
    → is_detached e ≡ true
    → is_detached (threw_of waiting false e reason).0 ≡ true
unfolding threw_of schedule_restart detach
stopped-threw_of zero e reason h = h
stopped-threw_of (suc n) e reason h = refl

pub stopped-start_resolved :
    (e : Entry) → is_detached e ≡ true → is_detached (start_resolved e).0 ≡ true
unfolding start_resolved
stopped-start_resolved e h = ground arith

pub stopped-timer_fired :
    (e : Entry) (t : ℕ) → is_detached e ≡ true → is_detached (timer_fired false e t) ≡ true
unfolding timer_fired launch
stopped-timer_fired e t h = ground arith
