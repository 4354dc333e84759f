-- ===== src/World/Recorder/Tests.antt =====
-- A match that is recorded, of a model whose facts are a number to which an observation adds.
use riki.Prelude.{
  ℕ, ◌+◌, ◌-◌, ◌≡◌, refl, true, List, [], ◌∷◌, none, some, arith, leb, ◌==◌, length, if◌then◌else◌,
}
use riki.World.Record.{Line, header, observation, keyframe}
use riki.World.Store.{Held, Rules, create_store, apply, reset, commit}
use riki.World.Timeline.{started_at, TimelineInstant}
use riki.World.Timeline.Reader.Reading.{reading}
use riki.World.Recorder.{
  Sink, MatchEvent, observed, match_started, clock_discontinuity, on_event, open_recording,
  close_recording, record_observation, force_keyframe, write, write_keyframe, abandon,
}
use riki.World.Recorder.Faithful.{Laws, InTime, ran, recorded_live}

abbrev adding : Rules ℕ ℕ (Held ℕ) ℕ
adding = record {
  fuse = λ w o now. if o == 0 then (none, 0, 1) else (some (w + o), 1, 0);
  changes = λ before after. after - before;
  clock_of = λ w. none;
  empty_state = λ now. 0;
  save = λ held. held;
  restore = λ held. (held, []);
}

-- Of an observation from 100 on the line has nothing.
abbrev keeping : ℕ → ℕ
keeping o = if leb 100 o then 0 else o

adding-Laws : Laws adding
adding-Laws = record { gives_back = λ held. refl }

-- A disk that never fails, and one that is full after three lines.
abbrev disk : Sink ℕ (Held ℕ)
disk = record { opens = λ id. true; takes = λ lines line. true; closes = λ id. true }

abbrev full_disk : Sink ℕ (Held ℕ)
full_disk = record {
  opens = λ id. true;
  takes = λ lines line. leb (length lines) 2;
  closes = λ id. true;
}

abbrev events : List (MatchEvent ℕ)
events =
    match_started "7001" 1_000
    ∷ observed 5 2_000
    ∷ observed 3 40_000
    ∷ clock_discontinuity 41_000
    ∷ observed 1 42_000
    ∷ []

-- The header, the opening keyframe, two observations, the keyframe of the interval, the one of the
-- reset, and the last observation.
seven_lines : length (ran adding disk keeping 30_000 300 adding-Laws events).1.written ≡ 7
unfolding on_event open_recording close_recording record_observation force_keyframe write
    write_keyframe abandon apply reset commit create_store
seven_lines = refl

stops_when_full : (ran adding full_disk keeping 30_000 300 adding-Laws events).1.match_id ≡ none
unfolding on_event open_recording close_recording record_observation force_keyframe write
    write_keyframe abandon apply reset commit create_store
stops_when_full = refl

events-InTime : InTime 0 events
events-InTime = (omega arith, (omega arith, (omega arith, (omega arith, (omega arith, tt)))))

still_recording : (ran adding disk keeping 30_000 300 adding-Laws events).1.match_id ≡ some "7001"
unfolding on_event open_recording close_recording record_observation force_keyframe write
    write_keyframe abandon apply reset commit create_store
still_recording = refl

recorded_live_example :
    reading adding
      (started_at (ran adding disk keeping 30_000 300 adding-Laws events).1.written)
      (record { facts = 0; version = 0 })
      (ran adding disk keeping 30_000 300 adding-Laws events).1.written
    ≡ (ran adding disk keeping 30_000 300 adding-Laws events).0.held
recorded_live_example =
    recorded_live adding disk keeping 30_000 300 adding-Laws events "7001"
      (refl, (refl, (refl, tt))) events-InTime still_recording (record { facts = 0; version = 0 })

abbrev calm_events : List (MatchEvent ℕ)
calm_events = match_started "7001" 1_000 ∷ observed 5 2_000 ∷ observed 3 3_000 ∷ []

abbrev calm_lines : List (Line ℕ (Held ℕ))
calm_lines =
    record { at_ms = 0; clock = none; body = header "7001" 1_000 30_000 }
    ∷ record {
      at_ms = 0;
      clock = none;
      body = keyframe 1 "open" (record { facts = 0; version = 1 });
    }
    ∷ record { at_ms = 1_000; clock = none; body = observation 5 }
    ∷ record { at_ms = 2_000; clock = none; body = observation 3 }
    ∷ []

abbrev last_moment : TimelineInstant
last_moment = record { at_ms = 2_000; now = 3_000; clock = none; line_index = 3 }
