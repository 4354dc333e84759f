-- ===== src/World/Recorder/Lines.antt =====
-- The lines that the recorder writes, against the model that they are to give back.
use riki.Prelude.{
  ℕ, ◌+◌, ◌-◌, ◌≤◌, ◌≡◌, inl, inr, refl, ◌∙◌, ap, sym, subst, Bool, true, false, List, [], ◌∷◌,
  ◌++◌, Option, none, some, String, arith, leb, Bool-cases, ◌⊎◌,
}
use riki.World.Record.{Line, observation}
use riki.World.Store.{Held, Rules}
use riki.World.Timeline.{started_of}
use riki.World.Timeline.Reader.Reading.{reading, reading_body, reading-append}
use riki.World.Recorder.{
  Sink, MatchRecorder, abandoned, abandon, write, written_by, keyframe_line, write_keyframe, closed,
  close_recording, header_line, opening, opened_if, open_recording, observation_line,
  keyframe_if_due, recorded, keyframe_if_open,
}

module _ {O K : Type 0} (sink : Sink O K) where
  abandoned-none :
      (r : MatchRecorder O K) (m : Option String) → (abandoned sink r m).match_id ≡ none
  abandoned-none r none = refl
  abandoned-none r (some id) = refl

  abandon-none : (r : MatchRecorder O K) → (abandon sink r).match_id ≡ none
  unfolding abandon
  abandon-none r = abandoned-none r r.match_id

  -- The line was added to an open recording, or none is open.
  abbrev Wrote : MatchRecorder O K → Line O K → MatchRecorder O K × Bool → Type 0
  Wrote r line (r', ok) =
      ((ok ≡ true)
        × (r'.written ≡ r.written ++ line ∷ [])
        × (r'.started_at ≡ r.started_at)
        × (r'.match_id ≡ r.match_id))
      ⊎ (r'.match_id ≡ none)

  written_by-Wrote :
      (r : MatchRecorder O K) (m : Option String) (line : Line O K)
      → r.match_id ≡ m
      → Wrote r line (written_by sink r m line)
  written_by-Wrote r none line e = inr e
  written_by-Wrote r (some id) line e = elim (Bool-cases (sink.takes r.written line)) [
    | inl t ↦ rw t (inl (refl, refl, refl, refl))
    | inr t ↦ rw t (inr (abandon-none (record r { failures = r.failures + 1 })))
  ]

  write-Wrote : (r : MatchRecorder O K) (line : Line O K) → Wrote r line (write sink r line)
  unfolding write
  write-Wrote r line = written_by-Wrote r r.match_id line refl

-- The first line is a header, with the time of the recorder's start, which is not after `t`.
pub record Opened {O K : Type 0} (t : ℕ) (r : MatchRecorder O K) : Type 0 where
  pub first : Line O K
  pub rest : List (Line O K)
  pub starts : r.written ≡ first ∷ rest
  pub begun : r.started_at ≤ t
  pub dated : (n : ℕ) → started_of first.body n ≡ r.started_at

module _ {W O K C : Type 0} (rules : Rules W O K C) (time : ℕ) where
  -- As long as a match is recorded, its lines end in what the model holds.
  abbrev pub RecordingAs : Held W → MatchRecorder O K → Type 0
  RecordingAs held r =
      (id : String)
      → r.match_id ≡ some id
      → Opened time r × ((h : Held W) → reading rules r.started_at h r.written ≡ held)

  pub not_recording :
      (held : Held W) (r : MatchRecorder O K) → r.match_id ≡ none → RecordingAs held r
  not_recording held r e id f =
      let no : ◌≡◌ {A = Option String} none (some id) = sym e ∙ f in absurd (cc)

  module _ (sink : Sink O K) where
    -- A line whose effect on the model is known.
    wrote-RecordingAs :
        (next : Held W) (r : MatchRecorder O K) (line : Line O K) (after : MatchRecorder O K × Bool)
        → Wrote sink r line after
        → ((id : String)
            → r.match_id ≡ some id
            → Opened time r
              × ((h : Held W)
                  → reading_body rules
                      (reading rules r.started_at h r.written)
                      (r.started_at + line.at_ms)
                      line.body
                    ≡ next))
        → RecordingAs next after.0
    wrote-RecordingAs next r line (r', ok) (inr closed_) k id m = not_recording next r' closed_ id m
    wrote-RecordingAs next r line (r', ok) (inl (t, e, f, g)) k id m =
        let (o, effect) = k id (sym g ∙ m) in
        (
          record {
            begun = subst (λ n. n ≤ time) (sym f) o.begun;
            first = o.first;
            rest = o.rest ++ line ∷ [];
            starts = e ∙ ap (λ xs. xs ++ line ∷ []) o.starts;
            dated = λ n. o.dated n ∙ sym f;
          },
          λ h.
              ap (λ xs. reading rules r'.started_at h xs) e
              ∙ ap (λ n. reading rules n h (r.written ++ line ∷ [])) f
              ∙ reading-append rules r.started_at h r.written (line ∷ [])
              ∙ effect h,
        )

    -- A keyframe says what the model holds, whatever was written before it.
    keyframe-RecordingAs :
        (redact : O → O) (interval : ℕ) (held : Held W) (r : MatchRecorder O K) (now : ℕ)
        (reason : String)
        → (rules.restore (rules.save held)).0 ≡ held
        → ((id : String) → r.match_id ≡ some id → Opened time r)
        → RecordingAs held (write_keyframe sink rules redact interval r held now reason)
    unfolding write_keyframe
    keyframe-RecordingAs redact interval held r now reason law opened id m =
        let line = keyframe_line sink rules redact interval r held now reason in
        let after =
          wrote-RecordingAs held r line (write sink r line) (write-Wrote sink r line)
            (λ i e. (opened i e, λ h. law)) id m in
        (
          record {
            first = after.0.first;
            begun = after.0.begun;
            rest = after.0.rest;
            starts = after.0.starts;
            dated = after.0.dated;
          },
          after.1,
        )

    header-Opened :
        (redact : O → O) (interval : ℕ) (r : MatchRecorder O K) (held : Held W) (id : String)
        (after : MatchRecorder O K × Bool)
        → r.written ≡ []
        → r.started_at ≤ time
        → Wrote sink r (header_line sink rules redact interval held id r.started_at) after
        → (i : String) → after.0.match_id ≡ some i
        → Opened time after.0
    header-Opened redact interval r held id (r', ok) none_yet started (inr closed_) i m =
        let no : ◌≡◌ {A = Option String} none (some i) = sym closed_ ∙ m in absurd (cc)
    header-Opened redact interval r held id (r', ok) none_yet started (inl (t, e, f, g)) i m =
        record {
          first = header_line sink rules redact interval held id r.started_at;
          rest = [];
          begun = subst (λ n. n ≤ time) (sym f) started;
          starts =
              e
              ∙ ap (λ xs. xs ++ header_line sink rules redact interval held id r.started_at ∷ [])
                  none_yet;
          dated = λ n. sym f;
        }

    closed-none :
        (redact : O → O) (interval : ℕ) (r : MatchRecorder O K) (m : Option String) (held : Held W)
        (now : ℕ) (reason : String)
        → r.match_id ≡ m
        → (closed sink rules redact interval r m held now reason).match_id ≡ none
    closed-none redact interval r none held now reason e = e
    closed-none redact interval r (some id) held now reason e =
        abandon-none sink (write_keyframe sink rules redact interval r held now reason)

    pub close-none :
        (redact : O → O) (interval : ℕ) (r : MatchRecorder O K) (held : Held W) (now : ℕ)
        (reason : String)
        → (close_recording sink rules redact interval r held now reason).match_id ≡ none
    unfolding close_recording
    close-none redact interval r held now reason =
        closed-none redact interval r r.match_id held now reason refl

    opened_if-RecordingAs :
        (redact : O → O) (interval : ℕ) (opens : Bool) (r : MatchRecorder O K) (held : Held W)
        (id : String) (now : ℕ)
        → (rules.restore (rules.save held)).0 ≡ held
        → r.match_id ≡ none
        → now ≤ time
        → RecordingAs held (opened_if sink rules redact interval opens r held id now)
    opened_if-RecordingAs redact interval false r held id now law none_open timely i m =
        not_recording held (opened_if sink rules redact interval false r held id now) none_open i m
    opened_if-RecordingAs redact interval true r held id now law none_open timely i m =
        let fresh = opening sink rules redact interval r id now in
        let line = header_line sink rules redact interval held id now in
        let titled = write sink fresh line in
        let known =
          keyframe-RecordingAs redact interval held titled.0 now "open" law
            (header-Opened redact interval fresh held id titled refl timely
              (write-Wrote sink fresh line))
            i m in
        (
          record {
            first = known.0.first;
            begun = known.0.begun;
            rest = known.0.rest;
            starts = known.0.starts;
            dated = known.0.dated;
          },
          known.1,
        )

    pub open-RecordingAs :
        (redact : O → O) (interval : ℕ) (r : MatchRecorder O K) (held : Held W) (id : String)
        (now : ℕ)
        → (rules.restore (rules.save held)).0 ≡ held
        → now ≤ time
        → RecordingAs held (open_recording sink rules redact interval r held id now)
    unfolding open_recording
    open-RecordingAs redact interval r held id now law timely =
        opened_if-RecordingAs redact interval (sink.opens id)
          (close_recording sink rules redact interval r held now "superseded") held id now law
          (close-none redact interval r held now "superseded") timely

    due-RecordingAs :
        (redact : O → O) (interval : ℕ) (held : Held W) (after : MatchRecorder O K × Bool) (now : ℕ)
        → (rules.restore (rules.save held)).0 ≡ held
        → RecordingAs held after.0
        → RecordingAs held (keyframe_if_due sink rules redact interval after held now)
    due-RecordingAs redact interval held (r, false) now law k = k
    due-RecordingAs redact interval held (r, true) now law k =
        elim (Bool-cases (leb (r.last_keyframe_at + interval) now)) [
          | inl t ↦
              rw t (
                keyframe-RecordingAs redact interval held r now "interval" law (λ id m. (k id m).0))
          | inr t ↦ rw t k
        ]

    -- An observation whose effect on the model is known.
    pub observed-RecordingAs :
        (redact : O → O) (interval : ℕ) (held next : Held W) (r : MatchRecorder O K) (o : O)
        (now : ℕ)
        → (rules.restore (rules.save next)).0 ≡ next
        → time ≤ now
        → reading_body rules held now (observation (redact o)) ≡ next
        → RecordingAs held r
        → (m : Option String) → r.match_id ≡ m
        → RecordingAs next (recorded sink rules redact interval r m next o now)
    observed-RecordingAs redact interval held next r o now law timely effect k none e =
        not_recording next (recorded sink rules redact interval r none next o now) e
    observed-RecordingAs redact interval held next r o now law timely effect k (some id) e =
        let line = observation_line sink rules redact interval r next o now in
        let since : (i : String) → r.match_id ≡ some i → r.started_at + (now - r.started_at) ≡ now =
          λ i m. omega (arith, timely, (k i m).0.begun) in
        due-RecordingAs redact interval next (write sink r line) now law (
          wrote-RecordingAs next r line (write sink r line) (write-Wrote sink r line) (λ i m. (
            (k i m).0,
            λ h.
                ap
                  (λ g.
                    reading_body rules g (r.started_at + (now - r.started_at))
                      (observation (redact o)))
                  ((k i m).1 h)
                ∙ ap (λ n. reading_body rules held n (observation (redact o))) (since i m)
                ∙ effect,
          )))

    pub forced-RecordingAs :
        (redact : O → O) (interval : ℕ) (held next : Held W) (r : MatchRecorder O K) (now : ℕ)
        → (rules.restore (rules.save next)).0 ≡ next
        → RecordingAs held r
        → (m : Option String) → r.match_id ≡ m
        → RecordingAs next
            (keyframe_if_open sink rules redact interval r m next now "clock_discontinuity")
    forced-RecordingAs redact interval held next r now law k none e =
        not_recording next
          (keyframe_if_open sink rules redact interval r none next now "clock_discontinuity") e
    forced-RecordingAs redact interval held next r now law k (some id) e =
        keyframe-RecordingAs redact interval next r now "clock_discontinuity" law (λ i m. (k i m).0)
