-- ===== src/World/Timeline/Reader.antt =====
-- timeline/reader.ts: `reconstruct` and `at`. What the replay does to the facts is the store's record
-- of operations. `none` stands for a search that ran out of fuel. The snapshot is its arguments.
pub mod Reading
pub mod Answers
pub mod Mirror
use riki.Prelude.{
  ℕ, zero, suc, ◌+◌, ◌-◌, ◌*◌, Bool, true, false, not, List, [], ◌∷◌, Option, none, some, String, ℤ,
  leb, leb_ℤ, drop, filter,
}
use riki.World.History.{Ring, push}
use riki.World.Record.{Line, Body, header, observation, keyframe}
use riki.World.Store.{Held, Rules, WorldDelta, fresh_ring, compute}
use riki.World.Timeline.{
  Index, get_elem?, take, last_of, last_where, TimelineInstant, TimelineTarget, clock_at, ago,
  Reason, before_recording, no_clock_yet, started_at, moments_from, keyframes_from, anchor_for,
}

-- The variables of the loop of `reconstruct`.
pub record Replaying (W C : Type 0) : Type 0 where
  pub held : Held W
  pub history : Ring (WorldDelta C)
  pub replayed : ℕ
  pub rejected : ℕ

pub record TimelineAnchor : Type 0 where
  pub at_ms : ℕ
  pub line_index : Index
  pub reason : String
  pub version : ℕ

pub record Reconstruction (W C : Type 0) : Type 0 where
  pub held : Held W
  pub history : Ring (WorldDelta C)
  pub now : ℕ
  pub clock : Option ℤ
  pub at : TimelineInstant
  pub from : TimelineAnchor
  pub replayed : ℕ
  pub skipped : List String
  pub rejected : ℕ

pub data Answer (W C : Type 0) : Type 0 where
  unknown : Reason → Answer W C
  found : Reconstruction W C → Answer W C

-- What a reconstruction starts with.
pub record Opened (W : Type 0) : Type 0 where
  pub held : Held W
  pub skipped : List String
  pub anchor : TimelineAnchor

abbrev pub has_clock : TimelineInstant → Bool
has_clock m = elim m.clock [ none ↦ false | some c ↦ true ]

abbrev pub clock_up_to : ℤ → TimelineInstant → Bool
clock_up_to target m = elim m.clock [ none ↦ false | some c ↦ leb_ℤ c target ]

-- `moment.atMs <= last.atMs - secondsAgo * 1000`
abbrev pub time_up_to : TimelineInstant → ℕ → TimelineInstant → Bool
time_up_to last ago_ms m = leb (m.at_ms + ago_ms) last.at_ms

abbrev pub segment {ℓ} : {A : Type ℓ} → List A → Index → ℕ → List A
segment lines none line_index = take (line_index + 1) lines
segment lines (some anchor) line_index = take (line_index - anchor) (drop (anchor + 1) lines)

abbrev pub line_of {ℓ} : {A : Type ℓ} → List A → Index → Option A
line_of lines none = none
line_of lines (some i) = get_elem? lines i

module _ {W O K C : Type 0} (rules : Rules W O K C) where
  abbrev pub fused_into : Replaying W C → ℕ → Option W × ℕ × ℕ → Replaying W C
  fused_into r now (none, accepted, rejected) = record r {
    replayed = r.replayed + 1;
    rejected = r.rejected + rejected;
  }
  fused_into r now (some next, accepted, rejected) =
      let versioned : Held W = record { facts = next; version = r.held.version + 1 } in
      let delta = compute rules r.held versioned in
      record r {
        held = versioned;
        history = push r.history delta delta.at_game_clock now;
        replayed = r.replayed + 1;
        rejected = r.rejected + rejected;
      }

  abbrev pub replay_body : Replaying W C → ℕ → Body O K → Replaying W C
  replay_body r now (header match_id started interval) = r
  replay_body r now (observation o) = fused_into r now (rules.fuse r.held.facts o now)
  replay_body r now (keyframe version reason state) = r

  unfoldable pub replay : ℕ → Replaying W C → List (Line O K) → Replaying W C
  replay start r [] = r
  replay start r (line ∷ lines) = replay start (replay_body r (start + line.at_ms) line.body) lines

  abbrev pub no_anchor : ℕ → Opened W
  no_anchor start = record {
    held = record { facts = rules.empty_state start; version = 0 };
    skipped = [];
    anchor = record { at_ms = 0; line_index = none; reason = "none"; version = 0 };
  }

  -- An index of `anchorFor` is of a keyframe.
  abbrev pub opened_by : ℕ → Index → ℕ → Body O K → Opened W
  opened_by start index at_ms (keyframe version reason state) =
      let (held, skipped) = rules.restore state in
      record {
        held = held;
        skipped = skipped;
        anchor = record { at_ms = at_ms; line_index = index; reason = reason; version = version };
      }
  opened_by start index at_ms _ = no_anchor start

  abbrev pub opened : ℕ → Index → Option (Line O K) → Opened W
  opened start index none = no_anchor start
  opened start index (some line) = opened_by start index line.at_ms line.body

-- The rest knows how far back the history of changes has to reach.
module _ {W O K C : Type 0} (rules : Rules W O K C) (window_seconds : ℕ) where
  abbrev pub starting_from : Opened W → Replaying W C
  starting_from o = record {
    held = o.held;
    history = fresh_ring window_seconds;
    replayed = 0;
    rejected = 0;
  }

  unfoldable pub reconstruct_from : List (Line O K) → TimelineInstant → Index → Reconstruction W C
  unfolding replay
  reconstruct_from lines moment anchor =
      let start = started_at lines in
      let o = opened rules start anchor (line_of lines anchor) in
      let r = replay rules start (starting_from o) (segment lines anchor moment.line_index) in
      record {
        held = r.held;
        history = r.history;
        now = moment.now;
        clock = rules.clock_of r.held.facts;
        at = moment;
        from = o.anchor;
        replayed = r.replayed;
        skipped = o.skipped;
        rejected = r.rejected;
      }

  unfoldable pub reconstruct : List (Line O K) → TimelineInstant → Option (Reconstruction W C)
  unfolding reconstruct_from
  reconstruct lines moment =
      elim (anchor_for lines (keyframes_from 0 lines) moment.line_index moment.at_ms
        (window_seconds * 1000)) [
          | none ↦ none
          | some anchor ↦ some (reconstruct_from lines moment anchor)
        ]

  abbrev pub answered : Option (Reconstruction W C) → Option (Answer W C)
  answered none = none
  answered (some r) = some (found r)

  abbrev pub answer_of : List (Line O K) → Option (Option TimelineInstant) → Option (Answer W C)
  answer_of lines none = none
  answer_of lines (some none) = some (unknown before_recording)
  answer_of lines (some (some moment)) = answered (reconstruct lines moment)

  abbrev pub at_clock : List (Line O K) → List TimelineInstant → ℤ → Option (Answer W C)
  at_clock lines [] target = some (unknown no_clock_yet)
  at_clock lines (m ∷ ms) target = answer_of lines (last_where (clock_up_to target) (m ∷ ms))

  abbrev pub at_target :
      List (Line O K)
      → List TimelineInstant
      → TimelineInstant
      → TimelineTarget
      → Option (Answer W C)
  at_target lines moments last (clock_at target) = at_clock lines (filter has_clock moments) target
  at_target lines moments last (ago ago_ms) =
      answer_of lines (last_where (time_up_to last ago_ms) moments)

  unfoldable pub at : List (Line O K) → TimelineTarget → Option (Answer W C)
  unfolding reconstruct
  at lines target =
      let moments = moments_from (started_at lines) 0 lines in
      elim (last_of moments) [
        | none ↦ some (unknown before_recording)
        | some last ↦ at_target lines moments last target
      ]
