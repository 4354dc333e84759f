-- ===== src/Sources/Supervisor.antt =====
-- supervisor.ts: starting, watching and restarting of sources. What the sources and the timers do
-- comes as events, in the order in which the process sees them; `launch` awaits `start` of a source,
-- so it ends in an event too, and `starting` counts the launches that wait. A timer has a number, of
-- those that its entry has asked for, and `timers` are those that run. Telemetry is a list.
pub mod Delays
pub mod Entries
pub mod Runs
mod Tests
use riki.Prelude.{
  ℕ, zero, suc, ◌+◌, ◌-◌, Bool, true, false, not, ◌&&◌, ◌||◌, List, [], ◌∷◌, ◌++◌, Option, none,
  some, String, min, leb, ◌==◌, length, filter, any, map, if◌then◌else◌,
}

pub record RestartPolicy : Type 0 where
  pub restart : Bool
  pub backoff_ms : List ℕ
  pub max_attempts : ℕ

-- The text of `gaveUp`: the reason itself, or `gave up after <n> restarts: <reason>`.
pub data GaveUp : Type 0 where
  forbidden : String → GaveUp
  exhausted : ℕ → String → GaveUp

pub record Entry : Type 0 where
  pub id : String
  pub can_exit : Bool
  pub policy : RestartPolicy
  pub subscribed : Bool
  pub pending : Option ℕ
  pub restarts : ℕ
  pub gave_up : Option GaveUp
  pub timers : List ℕ
  pub timers_made : ℕ
  pub starting : ℕ

pub data Report : Type 0 where
  source_started : String → Report
  source_restarted : String → ℕ → ℕ → Report
  source_gave_up : String → GaveUp → Report

abbrev pub Step : Type 0
Step = Entry × List Report

abbrev pub get_or_zero : List ℕ → ℕ → ℕ
get_or_zero [] i = 0
get_or_zero (x ∷ xs) zero = x
get_or_zero (x ∷ xs) (suc i) = get_or_zero xs i

unfoldable pub delay_for : RestartPolicy → ℕ → ℕ
delay_for policy attempt =
    if length policy.backoff_ms == 0
    then 0
    else get_or_zero policy.backoff_ms (min attempt (length policy.backoff_ms - 1))

abbrev pub stop_timer : Option ℕ → List ℕ → List ℕ
stop_timer none timers = timers
stop_timer (some t) timers = filter (λ u. not (u == t)) timers

unfoldable pub detach : Entry → Entry
detach e = record e { subscribed = false; timers = stop_timer e.pending e.timers; pending = none }

abbrev pub is_some {ℓ} : {A : Type ℓ} → Option A → Bool
is_some none = false
is_some (some x) = true

abbrev pub give_up : Entry → GaveUp → Step
give_up e ending = (record e { gave_up = some ending }, source_gave_up e.id ending ∷ [])

unfoldable pub schedule_restart : Bool → Entry → String → Step
schedule_restart running e reason =
    if not running || is_some e.gave_up
    then (e, [])
    else if not e.policy.restart
    then give_up e (forbidden reason)
    else if leb e.policy.max_attempts e.restarts
    then give_up e (exhausted e.restarts reason)
    else (
      record e {
        restarts = e.restarts + 1;
        pending = some e.timers_made;
        timers = e.timers ++ e.timers_made ∷ [];
        timers_made = e.timers_made + 1;
      },
      source_restarted e.id (e.restarts + 1) (delay_for e.policy e.restarts) ∷ [],
    )

-- `launch` up to the await.
unfoldable pub launch : Bool → Entry → Entry
launch running e =
    let d = detach e in
    if not running || is_some e.gave_up
    then e
    else record d { subscribed = true; starting = d.starting + 1 }

-- The listener of `onExit`, which stands as long as the subscription.
unfoldable pub exited : Bool → Entry → String → Step
exited running e reason =
    if e.can_exit && e.subscribed then schedule_restart running e reason else (e, [])

-- The end of the await in `launch`: `start` resolves, or it throws.
unfoldable pub start_resolved : Entry → Step
start_resolved e = elim e.starting [
  | zero ↦ (e, [])
  | suc n ↦ (record e { starting = n }, source_started e.id ∷ [])
]

unfoldable pub threw_of : ℕ → Bool → Entry → String → Step
threw_of zero running e reason = (e, [])
threw_of (suc n) running e reason =
    schedule_restart running (detach (record e { starting = n })) reason

abbrev pub start_threw : Bool → Entry → String → Step
start_threw running e reason = threw_of e.starting running e reason

-- The callback of a restart's timer.
unfoldable pub timer_fired : Bool → Entry → ℕ → Entry
timer_fired running e t =
    let fired = record e { timers = stop_timer (some t) e.timers; pending = none } in
    if any (λ u. u == t) e.timers then launch running fired else e

pub record Supervisor : Type 0 where
  pub running : Bool
  pub entries : List Entry
  pub reports : List Report

pub data Event : Type 0 where
  adds : String → Bool → RestartPolicy → Event
  starts stops : Event
  exits fails : ℕ → String → Event
  resolves : ℕ → Event
  fires : ℕ → ℕ → Event

-- What one entry makes of an event at its own place.
unfoldable pub at_index : (Entry → Step) → ℕ → List Entry → List Entry × List Report
at_index f i [] = ([], [])
at_index f zero (e ∷ es) = let (e', reports) = f e in (e' ∷ es, reports)
at_index f (suc i) (e ∷ es) = let (es', reports) = at_index f i es in (e ∷ es', reports)

abbrev pub update : Supervisor → (Entry → Step) → ℕ → Supervisor
update s f i =
    let (entries, reports) = at_index f i s.entries in
    record s { entries = entries; reports = s.reports ++ reports }

unfoldable pub add : Supervisor → String → Bool → RestartPolicy → Supervisor
add s id can_exit policy = record s {
  entries =
      s.entries
      ++ (record {
        id = id;
        can_exit = can_exit;
        policy = policy;
        subscribed = false;
        pending = none;
        restarts = 0;
        gave_up = none;
        timers = [];
        timers_made = 0;
        starting = 0;
      })
        ∷ [];
}

unfoldable pub start : Supervisor → Supervisor
start s =
    if s.running then s else record s { running = true; entries = map (launch true) s.entries }

unfoldable pub stop : Supervisor → Supervisor
stop s = if s.running then record s { running = false; entries = map detach s.entries } else s

unfoldable pub handle : Supervisor → Event → Supervisor
unfolding add start stop
handle s (adds id can_exit policy) = add s id can_exit policy
handle s starts = start s
handle s stops = stop s
handle s (exits i reason) = update s (λ e. exited s.running e reason) i
handle s (fails i reason) = update s (λ e. start_threw s.running e reason) i
handle s (resolves i) = update s start_resolved i
handle s (fires i t) = update s (λ e. (timer_fired s.running e t, [])) i

unfoldable pub run : Supervisor → List Event → Supervisor
run s [] = s
run s (v ∷ vs) = run (handle s v) vs

pub data HealthState : Type 0 where
  starting live degraded down : HealthState

pub record SourceHealth : Type 0 where
  pub state : HealthState
  pub last_observation_at : Option ℕ
  pub reason : Option GaveUp

-- `health` is what the source itself says.
unfoldable pub status_of : Entry → SourceHealth → String × ℕ × SourceHealth
status_of e health = (
  e.id,
  e.restarts,
  elim e.gave_up [
    | none ↦ health
    | some reason ↦ record { state = down; last_observation_at = none; reason = some reason }
  ],
)
