-- ===== src/World/Recorder/Faithful.antt =====
-- The process of main/state/index.ts over a sequence of events: store, recorder and reader together.
use riki.Prelude.{ℕ, ◌≤◌, ◌≡◌, refl, ◌∙◌, ap, List, [], ◌∷◌, Option, none, some, String, arith}
use riki.World.Record.{observation}
use riki.World.Store.{Held, Rules, Store, apply, applied, commit, reset, set_paused, create_store}
use riki.World.Timeline.{started_at}
use riki.World.Timeline.Reader.Reading.{reading, reading_body, held_next}
use riki.World.Recorder.{
  Sink, MatchRecorder, create_match_recorder, MatchEvent, observed, match_started, match_ended,
  clock_discontinuity, paused, close_recording, record_observation, force_keyframe, on_event,
}
use riki.World.Recorder.Lines.{
  Opened, RecordingAs, not_recording, close-none, open-RecordingAs, observed-RecordingAs,
  forced-RecordingAs,
}

-- A keyframe gives back what it was made of.
pub record Laws {W O K C : Type 0} (rules : Rules W O K C) : Type 0 where
  pub gives_back : (held : Held W) → (rules.restore (rules.save held)).0 ≡ held

abbrev pub time_of : {O : Type 0} → ℕ → MatchEvent O → ℕ
time_of time (observed o now) = now
time_of time (match_started id now) = now
time_of time (match_ended now) = now
time_of time (clock_discontinuity now) = now
time_of time (paused p) = time

-- Every observation is written as it is, nothing being left out of its line: it is no chat line with a
-- text, or none whose text is left out.
abbrev pub WrittenWhole : {O : Type 0} → (O → O) → List (MatchEvent O) → Type 0
WrittenWhole redact [] = Unit
WrittenWhole redact (observed o now ∷ es) = (redact o ≡ o) × WrittenWhole redact es
WrittenWhole redact (e ∷ es) = WrittenWhole redact es

-- The clock does not go back from event to event.
abbrev pub InTime : {O : Type 0} → ℕ → List (MatchEvent O) → Type 0
InTime time [] = Unit
InTime time (e ∷ es) = (time ≤ time_of time e) × InTime (time_of time e) es

abbrev pub end_of : {O : Type 0} → ℕ → List (MatchEvent O) → ℕ
end_of time [] = time
end_of time (e ∷ es) = end_of (time_of time e) es

module _ {W O K C : Type 0} (rules : Rules W O K C) where
  applied_held :
      (s : Store W C) (now : ℕ) (outcome : Option W × ℕ × ℕ)
      → held_next rules s.held outcome ≡ (applied rules s now outcome).0.held
  unfolding commit
  applied_held s now (none, accepted, rejected) = refl
  applied_held s now (some next, accepted, rejected) = refl

  apply_held :
      (s : Store W C) (o : O) (now : ℕ)
      → reading_body rules s.held now (observation o) ≡ (apply rules s o now).0.held
  unfolding apply
  apply_held s o now = applied_held s now (rules.fuse s.held.facts o now)

  later :
      (time now : ℕ) (held : Held W) (r : MatchRecorder O K)
      → time ≤ now
      → RecordingAs rules time held r
      → RecordingAs rules now held r
  later time now held r h k id m =
      let (o, same_) = k id m in
      (
        record {
          first = o.first;
          rest = o.rest;
          starts = o.starts;
          begun = omega (arith, o.begun, h);
          dated = o.dated;
        },
        same_,
      )

  module _ (sink : Sink O K) (redact : O → O) (interval window_seconds : ℕ)
      (laws : Laws rules) where
    abbrev pub run :
        Store W C × MatchRecorder O K → List (MatchEvent O) → Store W C × MatchRecorder O K
    run sr [] = sr
    run sr (e ∷ es) = run (on_event sink rules redact interval window_seconds sr e) es

    event-RecordingAs :
        (time : ℕ) (s : Store W C) (r : MatchRecorder O K) (e : MatchEvent O)
        → WrittenWhole redact (e ∷ [])
        → time ≤ time_of time e
        → RecordingAs rules time s.held r
        → RecordingAs rules
            (time_of time e)
            (on_event sink rules redact interval window_seconds (s, r) e).0.held
            (on_event sink rules redact interval window_seconds (s, r) e).1
    unfolding on_event record_observation force_keyframe set_paused
    event-RecordingAs time s r (observed o now) x h k =
        let s' = (apply rules s o now).0 in
        let effect =
          ap (λ o. held_next rules s.held (rules.fuse s.held.facts o now)) x.0
          ∙ apply_held s o now in
        observed-RecordingAs rules now sink redact interval s.held s'.held r o now
          (laws.gives_back s'.held) (omega arith) effect (later time now s.held r h k) r.match_id
          refl
    event-RecordingAs time s r (match_started id now) x h k =
        let s' = reset rules window_seconds s now in
        open-RecordingAs rules now sink redact interval r s'.held id now (laws.gives_back s'.held)
          (omega arith)
    event-RecordingAs time s r (match_ended now) x h k =
        not_recording rules now s.held
          (close_recording sink rules redact interval r s.held now "match_ended")
          (close-none rules now sink redact interval r s.held now "match_ended")
    event-RecordingAs time s r (clock_discontinuity now) x h k =
        let s' = reset rules window_seconds s now in
        forced-RecordingAs rules now sink redact interval s.held s'.held r now
          (laws.gives_back s'.held) (later time now s.held r h k) r.match_id refl
    event-RecordingAs time s r (paused p) x h k = k

    WrittenWhole-cons :
        (e : MatchEvent O) (es : List (MatchEvent O))
        → WrittenWhole redact (e ∷ es)
        → WrittenWhole redact (e ∷ []) × WrittenWhole redact es
    WrittenWhole-cons (observed o now) es x = ((x.0, tt), x.1)
    WrittenWhole-cons (match_started id now) es x = (tt, x)
    WrittenWhole-cons (match_ended now) es x = (tt, x)
    WrittenWhole-cons (clock_discontinuity now) es x = (tt, x)
    WrittenWhole-cons (paused p) es x = (tt, x)

    run-RecordingAs :
        (es : List (MatchEvent O)) (time : ℕ) (s : Store W C) (r : MatchRecorder O K)
        → WrittenWhole redact es
        → InTime time es
        → RecordingAs rules time s.held r
        → RecordingAs rules (end_of time es) (run (s, r) es).0.held (run (s, r) es).1
    run-RecordingAs [] time s r x t k = k
    run-RecordingAs (e ∷ es) time s r x (h, t) k =
        let next = on_event sink rules redact interval window_seconds (s, r) e in
        let (one, more) = WrittenWhole-cons e es x in
        run-RecordingAs es (time_of time e) next.0 next.1 more t
          (event-RecordingAs time s r e one h k)

    -- The process after some events, from its start.
    abbrev pub ran : List (MatchEvent O) → Store W C × MatchRecorder O K
    ran es = run (create_store rules window_seconds, create_match_recorder O K) es

    dated_start :
        (time : ℕ) (r : MatchRecorder O K) → Opened time r → started_at r.written ≡ r.started_at
    dated_start time r o = ap started_at o.starts ∙ o.dated (started_at o.rest)

    -- A keyframe gives back what it was made of. After any events in the order of their times, resets
    -- and failures of the sink among them, whose observations are all written as they are: as long as
    -- a match is being recorded, the lines written for it, read from the first on, each keyframe
    -- being what it says and each observation fused, give the facts and the version that the store
    -- holds. A chat line whose text is left out is not written as it is.
    pub recorded_live :
        (es : List (MatchEvent O)) (id : String)
        → WrittenWhole redact es
        → InTime 0 es
        → (ran es).1.match_id ≡ some id
        → (h : Held W)
        → reading rules (started_at (ran es).1.written) h (ran es).1.written ≡ (ran es).0.held
    recorded_live es id x t m h =
        let empty : RecordingAs rules 0 (create_store rules window_seconds).held
            (create_match_recorder O K) =
          not_recording rules 0 (create_store rules window_seconds).held (create_match_recorder O K)
            refl in
        let (o, same_) =
          run-RecordingAs es 0 (create_store rules window_seconds) (create_match_recorder O K) x t
            empty id m in
        ap (λ n. reading rules n h (ran es).1.written) (dated_start (end_of 0 es) (ran es).1 o)
        ∙ same_ h
