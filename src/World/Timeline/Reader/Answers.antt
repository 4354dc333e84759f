-- ===== src/World/Timeline/Reader/Answers.antt =====
-- `at`: what a recording answers, and when it has no answer.
use riki.Prelude.{
  ℕ, zero, suc, ◌≤◌, ◌≡◌, inl, inr, refl, ◌∙◌, ap, sym, Bool, true, List, [], ◌∷◌, Option, none,
  some, ℤ, arith, filter, leb_ℤ, Option-cases, Bool-cases,
}
use riki.World.Record.{Line}
use riki.World.Store.{Rules}
use riki.World.Timeline.{
  get_elem?, last_of, TimelineInstant, TimelineTarget, clock_at, ago, before_recording,
  no_clock_yet, started_at, moments_from,
}
use riki.World.Timeline.Search.{Monotone, get_elem?-none, last_where_exact}
use riki.World.Timeline.Anchor.{InOrder}
use riki.World.Timeline.Moments.{time_up_to-Monotone}
use riki.World.Timeline.Reader.{
  Answer, unknown, found, has_clock, clock_up_to, time_up_to, reconstruct_from, answer_of, answered,
  at_clock, at_target, at,
}
use riki.World.Timeline.Reader.Reading.{anchor_of, reconstruct_total}

filtered {ℓ} :
    {A : Type ℓ} (p : A → Bool) (xs : List A) (i : ℕ) (x : A)
    → get_elem? (filter p xs) i ≡ some x
    → p x ≡ true
filtered p [] i x e = absurd (cc)
filtered p (y ∷ ys) zero x e = elim (Bool-cases (p y)) [
  | inr t ↦ filtered p ys zero x (ground (arith, e, t))
  | inl t ↦ let same_ : y ≡ x = ground (arith, e, t) in ap p (sym same_) ∙ t
]
filtered p (y ∷ ys) (suc i) x e = elim (Bool-cases (p y)) [
  | inr t ↦ filtered p ys (suc i) x (ground (arith, e, t))
  | inl t ↦ filtered p ys i x (ground (arith, e, t))
]

le_trans : (a b c : ℤ) → leb_ℤ a b ≡ true → leb_ℤ b c ≡ true → leb_ℤ a c ≡ true
le_trans a b c h k = ground (arith, h, k)

module _ {O K : Type 0} where
  abbrev pub moments_of : List (Line O K) → List TimelineInstant
  moments_of lines = moments_from (started_at lines) 0 lines

  -- Among the moments that have one, the match clock does not decrease.
  abbrev pub ClocksInOrder : List (Line O K) → Type 0
  ClocksInOrder lines =
      (j k : ℕ) (m n : TimelineInstant) (c d : ℤ)
      → j ≤ k
      → get_elem? (filter has_clock (moments_of lines)) j ≡ some m
      → get_elem? (filter has_clock (moments_of lines)) k ≡ some n
      → m.clock ≡ some c
      → n.clock ≡ some d
      → leb_ℤ c d ≡ true

  clock_up_to-Monotone :
      (lines : List (Line O K)) (target : ℤ)
      → ClocksInOrder lines
      → Monotone (clock_up_to target) (filter has_clock (moments_of lines))
  clock_up_to-Monotone lines target ordered j k h t =
      let ms = filter has_clock (moments_of lines) in
      elim (Option-cases (get_elem? ms k)) [
        | inl f ↦ absurd (ground (arith, f, t))
        | inr (n, f) ↦ elim (Option-cases (get_elem? ms j)) [
          | inl e ↦ absurd (ground (arith, t, get_elem?-none ms j k h e))
          | inr (m, e) ↦
              let at_n : clock_up_to target n ≡ true = rw f at t in
              elim (Option-cases m.clock) [
                | inl c_none ↦
                    absurd (ground (arith, c_none, filtered has_clock (moments_of lines) j m e))
                | inr (c, c_at) ↦ elim (Option-cases n.clock) [
                  | inl d_none ↦ absurd (ground (arith, d_none, at_n))
                  | inr (d, d_at) ↦
                      let order = ordered j k m n c d h e f c_at d_at in
                      let below : leb_ℤ d target ≡ true = rw d_at at at_n in
                      rw (e, c_at) (le_trans c d target order below)
                ]
              ]
        ]
      ]

module _ {W O K C : Type 0} (rules : Rules W O K C) (window_seconds : ℕ)
    (lines : List (Line O K)) where
  -- A moment that was found is reconstructed.
  abbrev pub found_at : Option TimelineInstant → Answer W C
  found_at none = unknown before_recording
  found_at (some moment) = found (
      reconstruct_from rules window_seconds lines moment
        (anchor_of rules window_seconds lines moment))

  abbrev pub expected_clock : List TimelineInstant → ℤ → Answer W C
  expected_clock [] target = unknown no_clock_yet
  expected_clock (m ∷ ms) target = found_at (last_of (filter (clock_up_to target) (m ∷ ms)))

  abbrev pub expected_since : Option TimelineInstant → TimelineTarget → Answer W C
  expected_since none target = unknown before_recording
  expected_since (some last) (clock_at target) =
      expected_clock (filter has_clock (moments_of lines)) target
  expected_since (some last) (ago ago_ms) =
      found_at (last_of (filter (time_up_to last ago_ms) (moments_of lines)))

  answer_found :
      InOrder lines
      → (moment : Option TimelineInstant)
      → answer_of rules window_seconds lines (some moment) ≡ some (found_at moment)
  answer_found ordered none = refl
  answer_found ordered (some moment) =
      ap (answered rules window_seconds)
        (reconstruct_total rules window_seconds lines moment ordered)

  by_clock :
      InOrder lines
      → ClocksInOrder lines
      → (target : ℤ) (moments : List TimelineInstant)
      → filter has_clock (moments_of lines) ≡ moments
      → at_clock rules window_seconds lines moments target ≡ some (expected_clock moments target)
  by_clock ordered clocks target [] e = refl
  by_clock ordered clocks target (m ∷ ms) e =
      let mono : Monotone (clock_up_to target) (m ∷ ms) =
        rw e at (clock_up_to-Monotone lines target clocks) in
      ap (answer_of rules window_seconds lines)
        (last_where_exact (clock_up_to target) (m ∷ ms) mono)
      ∙ answer_found ordered (last_of (filter (clock_up_to target) (m ∷ ms)))

  by_target :
      InOrder lines
      → ClocksInOrder lines
      → (last : TimelineInstant) (target : TimelineTarget)
      → at_target rules window_seconds lines (moments_of lines) last target
        ≡ some (expected_since (some last) target)
  by_target ordered clocks last (clock_at target) =
      by_clock ordered clocks target (filter has_clock (moments_of lines)) refl
  by_target ordered clocks last (ago ago_ms) =
      ap (answer_of rules window_seconds lines) (
        last_where_exact (time_up_to last ago_ms) (moments_of lines)
          (time_up_to-Monotone (started_at lines) lines last ago_ms ordered))
      ∙ answer_found ordered (last_of (filter (time_up_to last ago_ms) (moments_of lines)))

  -- Over a recording whose times and match clocks do not decrease, `at` returns for every target. A
  -- recording without moments, and a target before its first moment, have the reason that the target
  -- is before the recording, and a clock in a recording that has no clock yet has that reason;
  -- any other target gives the reconstruction of the last moment, of those with a clock where the
  -- target is a clock, that is not after it.
  pub at_answers :
      InOrder lines
      → ClocksInOrder lines
      → (target : TimelineTarget)
      → at rules window_seconds lines target
        ≡ some (expected_since (last_of (moments_of lines)) target)
  unfolding at
  at_answers ordered clocks target = elim (Option-cases (last_of (moments_of lines))) [
    | inl e ↦ rw (at, e) refl
    | inr (last, e) ↦ rw (at, e) (by_target ordered clocks last target)
  ]
