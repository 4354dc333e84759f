-- ===== src/World/Timeline/Tests.antt =====
-- Recordings of a model whose facts are a number, to which an observation adds.
use riki.Prelude.{
  ℕ, zero, suc, ◌+◌, ◌-◌, ◌≤◌, ◌≡◌, refl, true, false, List, [], ◌∷◌, Option, none, some, String, ℤ,
  pos, arith, leb, ◌==◌, filter, if◌then◌else◌,
}
use riki.World.History.{push, evict, first_kept, create}
use riki.World.Record.{Line, header, observation, keyframe}
use riki.World.Store.{Held, Rules, Store, fresh_ring}
use riki.World.Timeline.{
  get_elem?, last_of, last_where, last_where_loop, anchor_for, anchor_loop, TimelineInstant,
  clock_at, ago, before_recording, no_clock_yet, moments_from, keyframes_from, on_entry,
}
use riki.World.Timeline.Search.{last_where_exact}
use riki.World.Timeline.Anchor.{InOrder, anchor_for_exact, chosen}
use riki.World.Timeline.Moments.{ascending-InOrder}
use riki.World.Timeline.Reader.{
  Answer, unknown, found, Replaying, Reconstruction, replay, reconstruct, reconstruct_from, at,
}
use riki.World.Timeline.Reader.Reading.{
  reading_at, Unreset, opening, replayed_lines, reconstruct_reading,
}
use riki.World.Timeline.Reader.Mirror.{stored, replay-apply}
use riki.World.Timeline.Reader.Answers.{ClocksInOrder, expected_since, moments_of, at_answers}

-- `fuse` leaves the model alone for a 0.
abbrev adding : Rules ℕ ℕ (Held ℕ) ℕ
adding = record {
  fuse = λ w o now. if o == 0 then (none, 0, 1) else (some (w + o), 1, 0);
  changes = λ before after. after - before;
  clock_of = λ w. none;
  empty_state = λ now. 0;
  save = λ held. held;
  restore = λ held. (held, []);
}

abbrev at_time : ℕ → Option ℤ → ℕ → Line ℕ (Held ℕ)
at_time at_ms clock o = record { at_ms = at_ms; clock = clock; body = observation o }

abbrev frame : ℕ → String → ℕ → ℕ → Line ℕ (Held ℕ)
frame at_ms reason facts version = record {
  at_ms = at_ms;
  clock = none;
  body = keyframe version reason (record { facts = facts; version = version });
}

abbrev opened_line : Line ℕ (Held ℕ)
opened_line = record { at_ms = 0; clock = none; body = header "7001" 100 30_000 }

abbrev plain : List (Line ℕ (Held ℕ))
plain =
    opened_line
    ∷ frame 0 "open" 0 0
    ∷ at_time 500 none 5
    ∷ at_time 1_000 (some (pos 1)) 3
    ∷ frame 1_000 "interval" 8 2
    ∷ at_time 1_500 (some (pos 2)) 0
    ∷ at_time 2_000 (some (pos 2)) 1
    ∷ []

-- A reset two seconds in, with its keyframe.
abbrev with_reset : List (Line ℕ (Held ℕ))
with_reset =
    opened_line
    ∷ frame 0 "open" 0 0
    ∷ at_time 500 none 5
    ∷ frame 2_000 "clock_discontinuity" 0 2
    ∷ at_time 2_500 none 1
    ∷ []

abbrev facts_of : Option (Answer ℕ ℕ) → Option ℕ
facts_of (some (found r)) = some r.held.facts
facts_of _ = none

abbrev replayed_of : Option (Answer ℕ ℕ) → Option ℕ
replayed_of (some (found r)) = some r.replayed
replayed_of _ = none

latest : facts_of (at adding 300 plain (ago 0)) ≡ some 9
unfolding at reconstruct reconstruct_from anchor_for last_where anchor_loop last_where_loop replay
    moments_from keyframes_from push evict first_kept create
latest = refl

earlier_one : facts_of (at adding 300 plain (ago 1_500)) ≡ some 5
unfolding at reconstruct reconstruct_from anchor_for last_where anchor_loop last_where_loop replay
    moments_from keyframes_from push evict first_kept create
earlier_one = refl

-- With no window to rebuild, the replay starts from the last keyframe.
short_window : replayed_of (at adding 0 plain (ago 0)) ≡ some 2
unfolding at reconstruct reconstruct_from anchor_for last_where anchor_loop last_where_loop replay
    moments_from keyframes_from push evict first_kept create
short_window = refl

too_early : at adding 300 plain (clock_at (pos 0)) ≡ some (unknown before_recording)
unfolding at reconstruct reconstruct_from anchor_for last_where anchor_loop last_where_loop replay
    moments_from keyframes_from push evict first_kept create
too_early = refl

no_clock : at adding 300 with_reset (clock_at (pos 0)) ≡ some (unknown no_clock_yet)
unfolding at reconstruct reconstruct_from anchor_for last_where anchor_loop last_where_loop replay
    moments_from keyframes_from push evict first_kept create
no_clock = refl

-- The keyframe of the reset leaves 1 after it; the reconstruction has the 5 from before as well.
reset_undone :
    (facts_of (at adding 300 with_reset (ago 0)) ≡ some 6)
    × ((reading_at adding with_reset 4).facts ≡ 1)
unfolding at reconstruct reconstruct_from anchor_for last_where anchor_loop last_where_loop replay
    moments_from keyframes_from push evict first_kept create
reset_undone = (refl, refl)

plain-InOrder : InOrder plain
plain-InOrder = ascending-InOrder plain refl

small_first :
    (i j : ℕ)
    → i ≤ j
    → on_entry (λ n. leb n 5) (get_elem? (1 ∷ 3 ∷ 9 ∷ []) j) ≡ true
    → on_entry (λ n. leb n 5) (get_elem? (1 ∷ 3 ∷ 9 ∷ []) i) ≡ true
small_first zero j h t = refl
small_first (suc zero) j h t = refl
small_first (suc (suc i)) zero h t = absurd (omega arith)
small_first (suc (suc i)) (suc zero) h t = absurd (omega arith)
small_first (suc (suc i)) (suc (suc zero)) h t = absurd (cc)
small_first (suc (suc i)) (suc (suc (suc j))) h t = absurd (cc)

last_where_exact_example :
    last_where (λ n. leb n 5) (1 ∷ 3 ∷ 9 ∷ [])
    ≡ some (last_of (filter (λ n. leb n 5) (1 ∷ 3 ∷ 9 ∷ [])))
last_where_exact_example = last_where_exact (λ n. leb n 5) (1 ∷ 3 ∷ 9 ∷ []) small_first

anchor_for_exact_example :
    anchor_for plain (keyframes_from 0 plain) 6 2_000 1_000 ≡ some (chosen plain 6 2_000 1_000)
anchor_for_exact_example = anchor_for_exact plain 6 2_000 1_000 plain-InOrder

abbrev last_moment : TimelineInstant
last_moment = record { at_ms = 2_000; now = 2_100; clock = some (pos 2); line_index = 6 }

plain-Unreset :
    Unreset adding 100
      (opening adding 300 plain last_moment)
      (replayed_lines adding 300 plain last_moment)
unfolding keyframes_from
plain-Unreset = (
  (λ t. absurd (cc)),
  ((λ t. absurd (cc)), ((λ t. refl), ((λ t. absurd (cc)), ((λ t. absurd (cc)), tt)))),
)

reconstruct_reading_example :
    (r : Reconstruction ℕ ℕ) × (reconstruct adding 300 plain last_moment ≡ some r)
    × (r.held ≡ reading_at adding plain 6)
reconstruct_reading_example =
    reconstruct_reading adding 300 plain last_moment plain-InOrder plain-Unreset

abbrev nothing_yet : Replaying ℕ ℕ
nothing_yet = record {
  held = record { facts = 0; version = 0 };
  history = fresh_ring 300;
  replayed = 0;
  rejected = 0;
}

abbrev emptied : Store ℕ ℕ
emptied = record {
  held = record { facts = 0; version = 0 };
  history = fresh_ring 300;
  paused = false;
}

abbrev young : List (Line ℕ (Held ℕ))
young = opened_line ∷ frame 0 "open" 0 0 ∷ at_time 500 none 5 ∷ at_time 1_000 (some (pos 1)) 3 ∷ []

young-ClocksInOrder : ClocksInOrder young
unfolding moments_from
young-ClocksInOrder zero zero m n c d h e f p q = ground (arith, e, f, p, q)
young-ClocksInOrder zero (suc k) m n c d h e f p q = absurd (cc)
young-ClocksInOrder (suc j) k m n c d h e f p q = absurd (cc)

at_answers_example :
    at adding 300 young (clock_at (pos 1))
    ≡ some (expected_since adding 300 young (last_of (moments_of young)) (clock_at (pos 1)))
at_answers_example =
    at_answers adding 300 young (ascending-InOrder young refl) young-ClocksInOrder
      (clock_at (pos 1))

replay-apply_example :
    ((replay adding 100 nothing_yet plain).held ≡ (stored adding 100 emptied plain).held)
    × ((replay adding 100 nothing_yet plain).history ≡ (stored adding 100 emptied plain).history)
replay-apply_example = replay-apply adding 100 nothing_yet emptied plain refl refl
