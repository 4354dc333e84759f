-- ===== src/World/Recorder.antt =====
-- record/recorder.ts: the recording of a match, line by line; and, from main/state/index.ts, what the
-- process does to the store and to the recorder for each observation and each event of a match. The
-- sink is a parameter: which ids it opens for, which lines it takes, and whether closing throws. What
-- it took for the last match that was opened is `written`. What a line leaves out of an observation,
-- the text of a chat, is `redact`.
pub mod Lines
pub mod Faithful
mod Tests
use riki.Prelude.{
  ℕ, ◌+◌, ◌-◌, Bool, true, false, List, [], ◌∷◌, ◌++◌, Option, none, some, String, ℤ, leb,
  if◌then◌else◌,
}
use riki.World.Record.{Line, Body, header, observation, keyframe}
use riki.World.Store.{Held, Rules, Store, apply, reset, set_paused}

abbrev pub default_keyframe_interval_ms : ℕ
default_keyframe_interval_ms = 30_000

pub record Sink (O K : Type 0) : Type 0 where
  pub opens : String → Bool
  pub takes : List (Line O K) → Line O K → Bool
  pub closes : String → Bool

pub data RecorderReport : Type 0 where
  recording_opened : String → RecorderReport
  recording_closed : String → ℕ → ℕ → RecorderReport
  recording_failed : String → RecorderReport

-- `sink` and `match_id` are set and cleared together.
pub record MatchRecorder (O K : Type 0) : Type 0 where
  pub match_id : Option String
  pub started_at : ℕ
  pub last_keyframe_at : ℕ
  pub lines : ℕ
  pub keyframes : ℕ
  pub unrecorded : ℕ
  pub failures : ℕ
  pub written : List (Line O K)
  pub reports : List RecorderReport

abbrev pub create_match_recorder : (O K : Type 0) → MatchRecorder O K
create_match_recorder O K = record {
  match_id = none;
  started_at = 0;
  last_keyframe_at = 0;
  lines = 0;
  keyframes = 0;
  unrecorded = 0;
  failures = 0;
  written = [];
  reports = [];
}

pub data MatchEvent (O : Type 0) : Type 0 where
  observed : O → ℕ → MatchEvent O
  match_started : String → ℕ → MatchEvent O
  match_ended clock_discontinuity : ℕ → MatchEvent O
  paused : Bool → MatchEvent O

module _ {O K : Type 0} (sink : Sink O K) where
  abbrev pub abandoned : MatchRecorder O K → Option String → MatchRecorder O K
  abandoned r none = record r { match_id = none }
  abandoned r (some id) = record r {
    match_id = none;
    failures = if sink.closes id then r.failures else r.failures + 1;
  }

  unfoldable pub abandon : MatchRecorder O K → MatchRecorder O K
  abandon r = abandoned r r.match_id

  abbrev pub report : MatchRecorder O K → RecorderReport → MatchRecorder O K
  report r x = record r { reports = r.reports ++ x ∷ [] }

  abbrev pub written_by : MatchRecorder O K → Option String → Line O K → MatchRecorder O K × Bool
  written_by r none line = (r, false)
  written_by r (some id) line =
      if sink.takes r.written line
      then (record r { lines = r.lines + 1; written = r.written ++ line ∷ [] }, true)
      else (report (abandon (record r { failures = r.failures + 1 })) (recording_failed id), false)

  unfoldable pub write : MatchRecorder O K → Line O K → MatchRecorder O K × Bool
  unfolding abandon
  write r line = written_by r r.match_id line

  module _ {W C : Type 0} (rules : Rules W O K C) (redact : O → O) (interval : ℕ) where
    abbrev pub at_ms_of : MatchRecorder O K → ℕ → ℕ
    at_ms_of r now = now - r.started_at

    abbrev pub keyframe_line : MatchRecorder O K → Held W → ℕ → String → Line O K
    keyframe_line r held now reason = record {
      at_ms = at_ms_of r now;
      clock = rules.clock_of held.facts;
      body = keyframe held.version reason (rules.save held);
    }

    abbrev pub count_keyframe : MatchRecorder O K × Bool → ℕ → MatchRecorder O K
    count_keyframe (r, ok) now = record r {
      keyframes = if ok then r.keyframes + 1 else r.keyframes;
      last_keyframe_at = now;
    }

    unfoldable pub write_keyframe : MatchRecorder O K → Held W → ℕ → String → MatchRecorder O K
    unfolding write
    write_keyframe r held now reason =
        count_keyframe (write r (keyframe_line r held now reason)) now

    abbrev pub closed : MatchRecorder O K → Option String → Held W → ℕ → String → MatchRecorder O K
    closed r none held now reason = r
    closed r (some id) held now reason =
        let last = write_keyframe r held now reason in
        report (abandon last) (recording_closed id last.lines last.keyframes)

    -- `closeRecording`, which `close` calls.
    unfoldable pub close_recording : MatchRecorder O K → Held W → ℕ → String → MatchRecorder O K
    unfolding write_keyframe abandon
    close_recording r held now reason = closed r r.match_id held now reason

    abbrev pub header_line : Held W → String → ℕ → Line O K
    header_line held id now = record {
      at_ms = 0;
      clock = rules.clock_of held.facts;
      body = header id now interval;
    }

    abbrev pub opening : MatchRecorder O K → String → ℕ → MatchRecorder O K
    opening r id now = record r {
      match_id = some id;
      started_at = now;
      last_keyframe_at = now;
      lines = 0;
      keyframes = 0;
      written = [];
    }

    -- After `openSink`, which gave a sink or threw.
    abbrev pub opened_if : Bool → MatchRecorder O K → Held W → String → ℕ → MatchRecorder O K
    opened_if false r held id now =
        report (record r { failures = r.failures + 1 }) (recording_failed id)
    opened_if true r held id now =
        report
          (write_keyframe (write (opening r id now) (header_line held id now)).0 held now "open")
          (recording_opened id)

    unfoldable pub open_recording : MatchRecorder O K → Held W → String → ℕ → MatchRecorder O K
    unfolding close_recording write write_keyframe
    open_recording r held id now =
        opened_if (sink.opens id) (close_recording r held now "superseded") held id now

    abbrev pub observation_line : MatchRecorder O K → Held W → O → ℕ → Line O K
    observation_line r held o now = record {
      at_ms = at_ms_of r now;
      clock = rules.clock_of held.facts;
      body = observation (redact o);
    }

    abbrev pub keyframe_if_due : MatchRecorder O K × Bool → Held W → ℕ → MatchRecorder O K
    keyframe_if_due (r, false) held now = r
    keyframe_if_due (r, true) held now =
        if leb (r.last_keyframe_at + interval) now then write_keyframe r held now "interval" else r

    abbrev pub recorded : MatchRecorder O K → Option String → Held W → O → ℕ → MatchRecorder O K
    recorded r none held o now = record r { unrecorded = r.unrecorded + 1 }
    recorded r (some id) held o now =
        keyframe_if_due (write r (observation_line r held o now)) held now

    unfoldable pub record_observation : MatchRecorder O K → Held W → O → ℕ → MatchRecorder O K
    unfolding write write_keyframe
    record_observation r held o now = recorded r r.match_id held o now

    abbrev pub keyframe_if_open :
        MatchRecorder O K → Option String → Held W → ℕ → String → MatchRecorder O K
    keyframe_if_open r none held now reason = r
    keyframe_if_open r (some id) held now reason = write_keyframe r held now reason

    unfoldable pub force_keyframe : MatchRecorder O K → Held W → ℕ → String → MatchRecorder O K
    unfolding write_keyframe
    force_keyframe r held now reason = keyframe_if_open r r.match_id held now reason

    -- The subscriber of the bus and `onLifecycleEvents`.
    unfoldable pub on_event :
        ℕ → Store W C × MatchRecorder O K → MatchEvent O → Store W C × MatchRecorder O K
    unfolding open_recording close_recording record_observation force_keyframe
    on_event window_seconds (s, r) (observed o now) =
        let s' = (apply rules s o now).0 in (s', record_observation r s'.held o now)
    on_event window_seconds (s, r) (match_started id now) =
        let s' = reset rules window_seconds s now in (s', open_recording r s'.held id now)
    on_event window_seconds (s, r) (match_ended now) =
        (s, close_recording r s.held now "match_ended")
    on_event window_seconds (s, r) (clock_discontinuity now) =
        let s' = reset rules window_seconds s now in
        (s', force_keyframe r s'.held now "clock_discontinuity")
    on_event window_seconds (s, r) (paused p) = (set_paused s p, r)
