-- ===== src/Sources/Supervisor/Tests.antt =====
-- The supervisor on concrete sources.
use riki.Prelude.{◌≡◌, refl, true, false, List, [], ◌∷◌, none, arith, any, ◌==◌}
use riki.Sources.Supervisor.{
  RestartPolicy, Entry, source_restarted, source_gave_up, exhausted, Supervisor, Event, adds,
  starts, stops, exits, fails, fires, handle, run, add, start, launch, detach, exited,
  schedule_restart, threw_of, timer_fired, at_index, delay_for,
}
use riki.Sources.Supervisor.Delays.{then_hold, delay_for-holds}
use riki.Sources.Supervisor.Entries.{IsSound}
use riki.Sources.Supervisor.Runs.{
  Every, Detached, run-IsSound, stopped_stays_stopped, two_exits_leave_timer,
}

abbrev sidecar : RestartPolicy
sidecar = record { restart = true; backoff_ms = 500 ∷ 2_000 ∷ 8_000 ∷ []; max_attempts = 2 }

abbrev empty : Supervisor
empty = record { running = false; entries = []; reports = [] }

abbrev started : Supervisor
started = run empty (adds "sidecar" true sidecar ∷ starts ∷ [])

started_runs : started.running ≡ true
unfolding run handle add start
started_runs = refl

-- A missing binary: the launch and both restarts fail, and the supervisor gives up.
abbrev missing : List Event
missing =
    fails 0 "ENOENT" ∷ fires 0 0 ∷ fails 0 "ENOENT" ∷ fires 0 1 ∷ fails 0 "ENOENT" ∷ fires 0 2 ∷ []

gives_up :
    (run started missing).reports
    ≡ source_restarted "sidecar" 1 500
      ∷ source_restarted "sidecar" 2 2_000
      ∷ source_gave_up "sidecar" (exhausted 2 "ENOENT")
      ∷ []
unfolding run handle add start launch detach threw_of schedule_restart timer_fired at_index
    delay_for
gives_up = refl

delay_for-holds_example :
    (delay_for sidecar 7 ≡ then_hold (500 ∷ 2_000 ∷ []) 8_000 7)
    × (delay_for (record sidecar { backoff_ms = [] }) 7 ≡ 0)
delay_for-holds_example = delay_for-holds sidecar (500 ∷ 2_000 ∷ []) 8_000 7

run-IsSound_example :
    Every IsSound (run empty (adds "sidecar" true sidecar ∷ starts ∷ missing)).entries
run-IsSound_example = run-IsSound empty (adds "sidecar" true sidecar ∷ starts ∷ missing) tt

abbrev running_entry : Entry
running_entry = record {
  id = "sidecar";
  can_exit = true;
  policy = sidecar;
  subscribed = true;
  pending = none;
  restarts = 0;
  gave_up = none;
  timers = [];
  timers_made = 0;
  starting = 0;
}

stopped_stays_stopped_example :
    ((run started (stops ∷ fails 0 "ENOENT" ∷ fires 0 0 ∷ exits 0 "1" ∷ [])).running ≡ false)
    × Every Detached (run started (stops ∷ fails 0 "ENOENT" ∷ fires 0 0 ∷ exits 0 "1" ∷ [])).entries
stopped_stays_stopped_example =
    stopped_stays_stopped started (fails 0 "ENOENT" ∷ fires 0 0 ∷ exits 0 "1" ∷ []) started_runs
      refl

two_exits_leave_timer_example :
    let second = (exited true (exited true running_entry "1").0 "2").0 in
    (second.restarts ≡ 2)
    × (any (λ t. t == 0) second.timers ≡ true)
    × (any (λ t. t == 0) (detach second).timers ≡ true)
two_exits_leave_timer_example = two_exits_leave_timer running_entry "1" "2" refl (omega arith)
