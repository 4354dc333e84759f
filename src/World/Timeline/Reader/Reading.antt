-- ===== src/World/Timeline/Reader/Reading.antt =====
-- A reconstruction against a reading of the whole recording. `reading` goes through the lines from
-- the first on, with the rules that `replay` uses: an observation, as it was written, is fused into
-- what was read so far, and a keyframe says what is held from there on, also after a reset.
use riki.Prelude.{
  ℕ, zero, suc, ◌+◌, ◌-◌, ◌*◌, ◌≤◌, ◌≡◌, refl, ◌∙◌, ap, sym, subst, true, List, [], ◌∷◌, ◌++◌,
  Option, none, some, arith, drop,
}
use riki.World.Record.{Line, Body, header, observation, keyframe}
use riki.World.Store.{Held, Rules}
use riki.World.Timeline.{
  Index, get_elem?, take, TimelineInstant, started_at, is_keyframe, keyframes_from, anchor_for,
}
use riki.World.Timeline.Anchor.{InOrder, anchor_for_exact, anchored, chosen, keyframe_line}
use riki.World.Timeline.Reader.{
  Replaying, replay, replay_body, fused_into, Reconstruction, reconstruct, reconstruct_from, opened,
  segment, line_of, opened_by,
}

split_at {ℓ} :
    {A : Type ℓ} (xs : List A) (a i : ℕ) (x : A)
    → get_elem? xs a ≡ some x
    → a ≤ i
    → take (i + 1) xs ≡ take a xs ++ x ∷ take (i - a) (drop (a + 1) xs)
split_at [] a i x e h = absurd (cc)
split_at (y ∷ ys) zero i x e h =
    let same_ : y ≡ x = ground (arith, e) in
    let n : i + 1 ≡ suc i = omega arith in let m : i - 0 ≡ i = omega arith in rw (n, m, same_) refl
split_at (y ∷ ys) (suc a) zero x e h = absurd (omega arith)
split_at (y ∷ ys) (suc a) (suc i) x e h =
    let n : suc i + 1 ≡ suc (i + 1) = omega arith in
    let m : suc i - suc a ≡ i - a = omega arith in
    let k : suc a + 1 ≡ suc (a + 1) = omega arith in
    rw (n, m, k) (ap (λ zs. y ∷ zs) (split_at ys a i x e (omega arith)))

module _ {W O K C : Type 0} (rules : Rules W O K C) where
  abbrev pub held_next : Held W → Option W × ℕ × ℕ → Held W
  held_next h (none, accepted, rejected) = h
  held_next h (some next, accepted, rejected) = record { facts = next; version = h.version + 1 }

  abbrev pub reading_body : Held W → ℕ → Body O K → Held W
  reading_body h now (header match_id started interval) = h
  reading_body h now (observation o) = held_next h (rules.fuse h.facts o now)
  reading_body h now (keyframe version reason state) = (rules.restore state).0

  abbrev pub reading : ℕ → Held W → List (Line O K) → Held W
  reading start h [] = h
  reading start h (line ∷ lines) =
      reading start (reading_body h (start + line.at_ms) line.body) lines

  -- No keyframe among the lines changes what was read so far: none of them comes from a reset.
  abbrev pub Unreset : ℕ → Held W → List (Line O K) → Type 0
  Unreset start h [] = Unit
  Unreset start h (line ∷ lines) =
      (is_keyframe line.body ≡ true → reading_body h (start + line.at_ms) line.body ≡ h)
      × Unreset start (reading_body h (start + line.at_ms) line.body) lines

  pub reading-append :
      (start : ℕ) (h : Held W) (xs ys : List (Line O K))
      → reading start h (xs ++ ys) ≡ reading start (reading start h xs) ys
  reading-append start h [] ys = refl
  reading-append start h (x ∷ xs) ys =
      reading-append start (reading_body h (start + x.at_ms) x.body) xs ys

  fused_held :
      (r : Replaying W C) (now : ℕ) (outcome : Option W × ℕ × ℕ)
      → (fused_into rules r now outcome).held ≡ held_next r.held outcome
  fused_held r now (none, accepted, rejected) = refl
  fused_held r now (some next, accepted, rejected) = refl

  body_held :
      (r : Replaying W C) (now : ℕ) (body : Body O K)
      → (is_keyframe body ≡ true → reading_body r.held now body ≡ r.held)
      → (replay_body rules r now body).held ≡ reading_body r.held now body
  body_held r now (header match_id started interval) same_ = refl
  body_held r now (observation o) same_ = fused_held r now (rules.fuse r.held.facts o now)
  body_held r now (keyframe version reason state) same_ = sym (same_ refl)

  replay-reading :
      (start : ℕ) (r : Replaying W C) (lines : List (Line O K))
      → Unreset start r.held lines
      → (replay rules start r lines).held ≡ reading start r.held lines
  unfolding replay
  replay-reading start r [] u = refl
  replay-reading start r (line ∷ lines) (same_, rest) =
      let step = body_held r (start + line.at_ms) line.body same_ in
      replay-reading start (replay_body rules r (start + line.at_ms) line.body) lines
        (subst (λ h. Unreset start h lines) (sym step) rest)
      ∙ ap (λ h. reading start h lines) step

  module _ (window_seconds : ℕ) where
    reconstruct-from :
        (lines : List (Line O K)) (moment : TimelineInstant) (anchor : Index)
        → anchor_for lines
            (keyframes_from 0 lines)
            moment.line_index
            moment.at_ms
            (window_seconds * 1000)
          ≡ some anchor
        → reconstruct rules window_seconds lines moment
          ≡ some (reconstruct_from rules window_seconds lines moment anchor)
    unfolding reconstruct
    reconstruct-from lines moment anchor e = rw (reconstruct, e) refl

    from-reading :
        (lines : List (Line O K)) (moment : TimelineInstant) (anchor : Index)
        → Unreset
            (started_at lines)
            (opened rules (started_at lines) anchor (line_of lines anchor)).held
            (segment lines anchor moment.line_index)
        → (reconstruct_from rules window_seconds lines moment anchor).held
          ≡ reading
              (started_at lines)
              (opened rules (started_at lines) anchor (line_of lines anchor)).held
              (segment lines anchor moment.line_index)
    unfolding reconstruct_from
    from-reading lines moment anchor u = replay-reading (started_at lines) _ _ u

  keyframe_held :
      (start : ℕ) (h : Held W) (index : Index) (line : Line O K)
      → is_keyframe line.body ≡ true
      → reading_body h (start + line.at_ms) line.body ≡ (opened rules start index (some line)).held
  keyframe_held start h index line t = of_body line.at_ms line.body t
    where
      of_body :
          (at_ms : ℕ) (body : Body O K)
          → is_keyframe body ≡ true
          → reading_body h (start + at_ms) body ≡ (opened_by rules start index at_ms body).held
      of_body at_ms (header match_id started interval) t = absurd (cc)
      of_body at_ms (observation o) t = absurd (cc)
      of_body at_ms (keyframe version reason state) t = refl

  -- What a reading of the recording from its first line gives after the line of an index.
  abbrev pub reading_at : List (Line O K) → ℕ → Held W
  reading_at lines i =
      reading (started_at lines)
        (record { facts = rules.empty_state (started_at lines); version = 0 }) (take (i + 1) lines)

  reading_anchored :
      (lines : List (Line O K)) (anchor : Index) (i : ℕ)
      → ((a : ℕ)
          → anchor ≡ some a
          → (line : Line O K) × (get_elem? lines a ≡ some line)
            × (is_keyframe line.body ≡ true)
            × (a ≤ i))
      → reading
          (started_at lines)
          (opened rules (started_at lines) anchor (line_of lines anchor)).held
          (segment lines anchor i)
        ≡ reading_at lines i
  reading_anchored lines none i h = refl
  reading_anchored lines (some a) i h =
      let (line, e, t, below) = h a refl in
      let start = started_at lines in
      let first : Held W = record { facts = rules.empty_state start; version = 0 } in
      let before = reading start first (take a lines) in
      sym (
        ap (reading start first) (split_at lines a i line e below)
        ∙ reading-append start first (take a lines) (line ∷ segment lines (some a) i)
        ∙ ap (λ h. reading start h (segment lines (some a) i))
            (keyframe_held start before (some a) line t ∙ rw e refl))

  module _ (window_seconds : ℕ) (lines : List (Line O K)) (moment : TimelineInstant) where
    -- The keyframe that the moment is reconstructed from.
    abbrev pub anchor_of : Index
    anchor_of = chosen lines moment.line_index moment.at_ms (window_seconds * 1000)

    -- What the replay starts from, and the lines that it runs over.
    abbrev pub opening : Held W
    opening = (opened rules (started_at lines) anchor_of (line_of lines anchor_of)).held

    abbrev pub replayed_lines : List (Line O K)
    replayed_lines = segment lines anchor_of moment.line_index

    pub reconstruct_total :
        InOrder lines
        → reconstruct rules window_seconds lines moment
          ≡ some (reconstruct_from rules window_seconds lines moment anchor_of)
    reconstruct_total ordered =
        reconstruct-from window_seconds lines moment anchor_of
          (anchor_for_exact lines moment.line_index moment.at_ms (window_seconds * 1000) ordered)

    -- Over a recording whose times do not decrease, `reconstruct` returns, and where no keyframe
    -- between the one it starts from and the moment changes what was read so far, as after a reset,
    -- the facts and the version that it gives from that keyframe on are those that a reading of the
    -- recorded lines from the first to the moment's gives, whatever lines stand before the keyframe.
    pub reconstruct_reading :
        InOrder lines
        → Unreset (started_at lines) opening replayed_lines
        → (r : Reconstruction W C) × (reconstruct rules window_seconds lines moment ≡ some r)
          × (r.held ≡ reading_at lines moment.line_index)
    reconstruct_reading ordered unreset = (
      _,
      reconstruct_total ordered,
      from-reading window_seconds lines moment anchor_of unreset
          ∙ reading_anchored lines anchor_of moment.line_index (λ a e.
            let (i, found, below) =
              anchored lines moment.line_index moment.at_ms (window_seconds * 1000) a e in
            let (line, there, t) = keyframe_line 0 lines i a (found ∙ ap some (omega arith)) in
            (line, there, t, below)),
    )
