-- ===== src/World/Timeline.antt =====
-- timeline/reader.ts: the model as of an instant of a recording. Indices count from 0; the upper end
-- `high` of a search is `end - 1` here, since it can be -1. The searches take fuel, of which their
-- callers give more than there are entries. A target in seconds is in thousandths of a second, and
-- times before the recording do not occur: sums are compared in place of differences.
pub mod Search
pub mod Anchor
pub mod Reader
pub mod Moments
mod Tests
use riki.Prelude.{
  ℕ, zero, suc, ◌+◌, ◌-◌, ◌*◌, ◌/◌, Bool, true, false, ◌&&◌, List, [], ◌∷◌, Option, none, some,
  String, ℤ, ltb, leb, leb_ℤ, length, drop, filter, if◌then◌else◌,
}
use riki.World.History.{Ring, push}
use riki.World.Record.{Line, Body, header, observation, keyframe}
use riki.World.Store.{Held, Rules, WorldDelta, fresh_ring, compute}

module _ {ℓ} {A : Type ℓ} where
  abbrev pub get_elem? : List A → ℕ → Option A
  get_elem? [] i = none
  get_elem? (x ∷ xs) zero = some x
  get_elem? (x ∷ xs) (suc i) = get_elem? xs i

  abbrev pub take : ℕ → List A → List A
  take zero xs = []
  take (suc n) [] = []
  take (suc n) (x ∷ xs) = x ∷ take n xs

  -- `xs.at(-1) ?? null`
  abbrev pub last_of : List A → Option A
  last_of [] = none
  last_of (x ∷ xs) = elim (last_of xs) [ none ↦ some x | some y ↦ some y ]

  abbrev pub on_entry : (A → Bool) → Option A → Bool
  on_entry p none = false
  on_entry p (some x) = p x

module _ {ℓ} {A : Type ℓ} (holds : A → Bool) (entries : List A) where
  unfoldable pub last_where_loop : ℕ → ℕ → ℕ → Option A → Option (Option A)
  last_where_loop zero low end found = none
  last_where_loop (suc fuel) low end found =
      let mid = (low + end - 1) / 2 in
      elim (ltb low end) [
        | false ↦ some found
        | true ↦ elim (on_entry holds (get_elem? entries mid)) [
          | true ↦ last_where_loop fuel (mid + 1) end (get_elem? entries mid)
          | false ↦ last_where_loop fuel low mid found
        ]
      ]

  unfoldable pub last_where : Option (Option A)
  unfolding last_where_loop
  last_where = last_where_loop (length entries + 1) 0 (length entries) none

abbrev pub Index : Type 0
Index = Option ℕ

pub record TimelineInstant : Type 0 where
  pub at_ms : ℕ
  pub now : ℕ
  pub clock : Option ℤ
  pub line_index : ℕ

pub data TimelineTarget : Type 0 where
  clock_at : ℤ → TimelineTarget
  ago : ℕ → TimelineTarget

pub data Reason : Type 0 where
  before_recording no_clock_yet : Reason

-- `candidate < earliest` with -1 for none.
abbrev pub earlier : Index → ℕ → Index
earlier none candidate = some candidate
earlier (some e) candidate = if ltb candidate e then some candidate else some e

abbrev pub or_zero : Index → ℕ
or_zero none = 0
or_zero (some i) = i

module _ {O K : Type 0} where
  abbrev pub is_header : Body O K → Bool
  is_header (header match_id started_at interval) = true
  is_header _ = false

  abbrev pub is_keyframe : Body O K → Bool
  is_keyframe (keyframe version reason state) = true
  is_keyframe _ = false

  -- `lines.find((line) => line.kind === 'header')?.startedAt ?? 0`
  abbrev pub started_of : Body O K → ℕ → ℕ
  started_of (header match_id started_at interval) otherwise = started_at
  started_of _ otherwise = otherwise

  abbrev pub started_at : List (Line O K) → ℕ
  started_at [] = 0
  started_at (line ∷ lines) = started_of line.body (started_at lines)

  -- The walk at opening, over the lines from index `i` on.
  unfoldable pub moments_from : ℕ → ℕ → List (Line O K) → List TimelineInstant
  moments_from start i [] = []
  moments_from start i (line ∷ lines) =
      let rest = moments_from start (i + 1) lines in
      if is_header line.body
      then rest
      else (record {
        at_ms = line.at_ms;
        now = start + line.at_ms;
        clock = line.clock;
        line_index = i;
      })
        ∷ rest

  unfoldable pub keyframes_from : ℕ → List (Line O K) → List ℕ
  keyframes_from i [] = []
  keyframes_from i (line ∷ lines) =
      let rest = keyframes_from (i + 1) lines in if is_keyframe line.body then i ∷ rest else rest

  abbrev pub line_at_ms : Option (Line O K) → ℕ
  line_at_ms none = 0
  line_at_ms (some line) = line.at_ms

  -- `lines[candidate].atMs <= notAfterMs`, where `notAfterMs` is `at_ms - window_ms`
  abbrev pub old_enough : List (Line O K) → ℕ → ℕ → ℕ → Bool
  old_enough lines at_ms window_ms candidate =
      leb (line_at_ms (get_elem? lines candidate) + window_ms) at_ms

-- What follows the loop of `anchorFor`: -1 is `none`.
abbrev pub first_up_to : ℕ → Index → Index
first_up_to line_index none = none
first_up_to line_index (some k) = if leb k line_index then some k else none

abbrev pub found_or_first : List ℕ → ℕ → Index → Index
found_or_first indices line_index none = first_up_to line_index (get_elem? indices 0)
found_or_first indices line_index (some k) = some k

module _ {O K : Type 0} where
  module _ (lines : List (Line O K)) (indices : List ℕ) (line_index at_ms window_ms : ℕ) where
    unfoldable pub anchor_loop : ℕ → ℕ → ℕ → Index → Index → Option Index
    anchor_loop zero low end found earliest = none
    anchor_loop (suc fuel) low end found earliest =
        let mid = (low + end - 1) / 2 in
        let candidate = or_zero (get_elem? indices mid) in
        elim (ltb low end) [
          | false ↦ some found
          | true ↦ elim (ltb line_index candidate) [
            | true ↦ anchor_loop fuel low mid found earliest
            | false ↦ elim (old_enough lines at_ms window_ms candidate) [
              | true ↦ anchor_loop fuel (mid + 1) end (some candidate) (earlier earliest candidate)
              | false ↦ anchor_loop fuel low mid found (earlier earliest candidate)
            ]
          ]
        ]

    unfoldable pub anchor_for : Option Index
    unfolding anchor_loop
    anchor_for = elim (anchor_loop (length indices + 1) 0 (length indices) none none) [
      | none ↦ none
      | some found ↦ some (found_or_first indices line_index found)
    ]
