-- ===== src/World/Timeline/Anchor.antt =====
-- `anchorFor`: which keyframe a reconstruction starts from.
use riki.Prelude.{
  ℕ, zero, suc, ◌+◌, ◌≤◌, ◌<◌, ◌≡◌, inl, inr, refl, ◌∙◌, ap, sym, Bool, true, false, not, ◌&&◌,
  List, [], ◌∷◌, Option, none, some, arith, ltb, length, filter, Bool-cases, Option-cases,
}
use riki.World.Record.{Line}
use riki.World.Timeline.{
  Index, earlier, or_zero, get_elem?, last_of, last_where_loop, keyframes_from, line_at_ms,
  old_enough, anchor_loop, last_where, found_or_first, anchor_for, is_keyframe,
}
use riki.World.Timeline.Search.{
  Monotone, get_elem?-none, get_elem?-within, last_where_exact, last_of-filter, middle,
  middle_below, step_left, step_right,
}

abbrev and_then : (Index → Index) → Option Index → Option Index
and_then f none = none
and_then f (some i) = some (f i)

module _ {O K : Type 0} where
  -- The times of the lines do not decrease.
  abbrev pub InOrder : List (Line O K) → Type 0
  InOrder lines =
      (i j : ℕ)
      → i ≤ j
      → j < length lines
      → line_at_ms (get_elem? lines i) ≤ line_at_ms (get_elem? lines j)

  in_bounds :
      (start : ℕ) (lines : List (Line O K)) (i k : ℕ)
      → get_elem? (keyframes_from start lines) i ≡ some k
      → (start ≤ k) × (k < start + length lines)
  unfolding keyframes_from
  in_bounds start [] i k e = absurd (cc)
  in_bounds start (line ∷ lines) zero k e = ground (arith, e, in_bounds (start + 1) lines zero k)
  in_bounds start (line ∷ lines) (suc i) k e =
      ground (arith, e, in_bounds (start + 1) lines (suc i) k, in_bounds (start + 1) lines i k)

  ascending :
      (start : ℕ) (lines : List (Line O K)) (i j k l : ℕ)
      → i ≤ j
      → get_elem? (keyframes_from start lines) i ≡ some k
      → get_elem? (keyframes_from start lines) j ≡ some l
      → k ≤ l
  unfolding keyframes_from
  ascending start [] i j k l h e f = absurd (cc)
  ascending start (line ∷ lines) zero zero k l h e f = ground (arith, e, f)
  ascending start (line ∷ lines) (suc i) zero k l h e f = absurd (omega arith)
  ascending start (line ∷ lines) zero (suc j) k l h e f = ground (
    arith,
    e,
    f,
    ascending (start + 1) lines zero (suc j) k l,
    in_bounds (start + 1) lines j l,
    in_bounds (start + 1) lines (suc j) l,
  )
  ascending start (line ∷ lines) (suc i) (suc j) k l h e f = ground (
    arith,
    e,
    f,
    h,
    ascending (start + 1) lines (suc i) (suc j) k l,
    ascending (start + 1) lines i j k l,
  )

  -- An index of the walk is of a keyframe.
  pub keyframe_line :
      (start : ℕ) (lines : List (Line O K)) (i k : ℕ)
      → get_elem? (keyframes_from start lines) i ≡ some (start + k)
      → (line : Line O K) × (get_elem? lines k ≡ some line) × (is_keyframe line.body ≡ true)
  unfolding keyframes_from
  keyframe_line start [] i k e = absurd (cc)
  keyframe_line start (line ∷ lines) zero zero e = elim (Bool-cases (is_keyframe line.body)) [
    | inl t ↦ (line, refl, t)
    | inr t ↦ absurd (ground (arith, e, t, in_bounds (start + 1) lines zero start))
  ]
  keyframe_line start (line ∷ lines) (suc i) zero e = absurd (
      ground
        (arith, e, in_bounds (start + 1) lines i start, in_bounds (start + 1) lines (suc i) start))
  keyframe_line start (line ∷ lines) zero (suc k) e =
      keyframe_line (start + 1) lines zero k (ground (arith, e))
  keyframe_line start (line ∷ lines) (suc i) (suc k) e = elim (Bool-cases (is_keyframe line.body)) [
    | inl t ↦ keyframe_line (start + 1) lines i k (ground (arith, e, t))
    | inr t ↦ keyframe_line (start + 1) lines (suc i) k (ground (arith, e, t))
  ]

  module _ (lines : List (Line O K)) (line_index at_ms window_ms : ℕ) where
    -- A keyframe up to the moment's line, and old enough.
    abbrev pub fits : ℕ → Bool
    fits candidate = not (ltb line_index candidate) && old_enough lines at_ms window_ms candidate

    fits-Monotone : InOrder lines → Monotone fits (keyframes_from 0 lines)
    fits-Monotone ordered i j h t = elim (Option-cases (get_elem? (keyframes_from 0 lines) j)) [
      | inl f ↦ absurd (ground (arith, f, t))
      | inr (l, f) ↦ elim (Option-cases (get_elem? (keyframes_from 0 lines) i)) [
        | inl e ↦ absurd (ground (arith, t, get_elem?-none (keyframes_from 0 lines) i j h e))
        | inr (k, e) ↦
            ground (
              arith,
              e,
              f,
              t,
              ascending 0 lines i j k l h e f,
              in_bounds 0 lines j l f,
              ordered k l,
            )
      ]
    ]

    module _ (indices : List ℕ) where
      abbrev loop : ℕ → ℕ → ℕ → Index → Index → Option Index
      loop = anchor_loop lines indices line_index at_ms window_ms

      abbrev candidate_at : ℕ → ℕ → ℕ
      candidate_at low end = or_zero (get_elem? indices (middle low end))

      late_step :
          (fuel low end : ℕ) (found earliest : Index)
          → ltb low end ≡ true
          → ltb line_index (candidate_at low end) ≡ true
          → loop (suc fuel) low end found earliest ≡ loop fuel low (middle low end) found earliest
      unfolding anchor_loop
      late_step fuel low end found earliest h late = rw (anchor_loop, h, late) refl

      old_step :
          (fuel low end : ℕ) (found earliest : Index)
          → ltb low end ≡ true
          → ltb line_index (candidate_at low end) ≡ false
          → old_enough lines at_ms window_ms (candidate_at low end) ≡ true
          → loop (suc fuel) low end found earliest
            ≡ loop fuel
                (middle low end + 1)
                end
                (some (candidate_at low end))
                (earlier earliest (candidate_at low end))
      unfolding anchor_loop
      old_step fuel low end found earliest h early old = rw (anchor_loop, h, early, old) refl

      young_step :
          (fuel low end : ℕ) (found earliest : Index)
          → ltb low end ≡ true
          → ltb line_index (candidate_at low end) ≡ false
          → old_enough lines at_ms window_ms (candidate_at low end) ≡ false
          → loop (suc fuel) low end found earliest
            ≡ loop fuel low (middle low end) found (earlier earliest (candidate_at low end))
      unfolding anchor_loop
      young_step fuel low end found earliest h early young = rw (anchor_loop, h, early, young) refl

      -- Whatever `earliest` is, the loop is the search for the last keyframe that fits.
      anchor_loop-search :
          (fuel low end : ℕ) (found earliest : Index)
          → end ≤ length indices
          → loop fuel low end found earliest ≡ last_where_loop fits indices fuel low end found
      unfolding anchor_loop last_where_loop
      anchor_loop-search zero low end found earliest inside = refl
      anchor_loop-search (suc fuel) low end found earliest inside =
          elim (Bool-cases (ltb low end)) [
            | inr h ↦ rw (anchor_loop, last_where_loop, h) refl
            | inl h ↦
                let mid = middle low end in
                let within : mid < length indices =
                  omega (arith, middle_below low end (ground (arith, h)), inside) in
                let (k, e) = get_elem?-within indices mid within in
                let next : Index = earlier earliest (candidate_at low end) in
                elim (Bool-cases (ltb line_index (candidate_at low end))) [
                  | inl late ↦
                      late_step fuel low end found earliest h late
                      ∙ anchor_loop-search fuel low mid found earliest (omega (arith, within))
                      ∙ sym (step_left fits indices fuel low end found h (ground (arith, e, late)))
                  | inr early ↦
                      elim (Bool-cases (old_enough lines at_ms window_ms (candidate_at low end))) [
                        | inl old ↦
                            old_step fuel low end found earliest h early old
                            ∙ anchor_loop-search fuel (mid + 1) end (some (candidate_at low end))
                                next inside
                            ∙ ap (last_where_loop fits indices fuel (mid + 1) end) (rw e refl)
                            ∙ sym (
                                step_right fits indices fuel low end found h
                                  (ground (arith, e, early, old)))
                        | inr young ↦
                            young_step fuel low end found earliest h early young
                            ∙ anchor_loop-search fuel low mid found next (omega (arith, within))
                            ∙ sym (
                                step_left fits indices fuel low end found h
                                  (ground (arith, e, early, young)))
                      ]
                ]
          ]

      -- The loop alone, on any ascending or other list of indices.
      anchor_for-search :
          anchor_for lines indices line_index at_ms window_ms
          ≡ and_then (found_or_first indices line_index) (last_where fits indices)
      unfolding anchor_for last_where
      anchor_for-search =
          rw
            (
              anchor_for,
              anchor_loop-search (length indices + 1) 0 (length indices) none none (omega arith),
            )
            (finish (last_where_loop fits indices (length indices + 1) 0 (length indices) none))
        where
          finish :
              (o : Option Index)
              → ◌≡◌ {A = Option Index}
                  (elim o [
                    | none ↦ none
                    | some found ↦ some (found_or_first indices line_index found)
                  ])
                  (and_then (found_or_first indices line_index) o)
          finish none = refl
          finish (some found) = refl

    -- The last keyframe that fits, or else the first up to the moment's line.
    abbrev pub chosen : Index
    chosen =
        found_or_first (keyframes_from 0 lines) line_index
          (last_of (filter fits (keyframes_from 0 lines)))

    -- In a recording whose times do not decrease, `anchorFor` returns within its fuel. It gives the
    -- last keyframe that is not after the moment's line and whose time is at least the window before
    -- the moment's, and where no keyframe is so old, the first of the recording, if that is not after
    -- the moment's line.
    pub anchor_for_exact :
        InOrder lines
        → anchor_for lines (keyframes_from 0 lines) line_index at_ms window_ms ≡ some chosen
    anchor_for_exact ordered =
        anchor_for-search (keyframes_from 0 lines)
        ∙ ap (and_then (found_or_first (keyframes_from 0 lines) line_index))
            (last_where_exact fits (keyframes_from 0 lines) (fits-Monotone ordered))

    pub anchored :
        (a : ℕ)
        → chosen ≡ some a
        → (i : ℕ) × (get_elem? (keyframes_from 0 lines) i ≡ some a) × (a ≤ line_index)
    anchored a e = elim (Option-cases (last_of (filter fits (keyframes_from 0 lines)))) [
      | inr (k, f) ↦
          let (i, found, t) = last_of-filter fits (keyframes_from 0 lines) k f in
          let same_ : k ≡ a = ground (arith, e, f) in
          (i, found ∙ ap some same_, ground (arith, t, same_))
      | inl f ↦ elim (Option-cases (get_elem? (keyframes_from 0 lines) 0)) [
        | inl n ↦ absurd (ground (arith, e, f, n))
        | inr (k, g) ↦ (0, ground (arith, e, f, g), ground (arith, e, f, g))
      ]
    ]
