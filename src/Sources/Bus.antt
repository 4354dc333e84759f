-- ===== src/Sources/Bus.antt =====
-- bus.ts: the observation bus. What the subscribers do with a delivery is a parameter, from what was
-- delivered before: the observations that they publish meanwhile, in order, and whether one of them
-- throws. `heard` and `delivered` are the calls of `publish` and the deliveries, in order. The loop
-- takes fuel.
pub mod Queue
pub mod Deliveries
mod Tests
use text.Mathlib.Text.{◌==◌ as str_eq}
use riki.Prelude.{
  ℕ, zero, suc, ◌+◌, Bool, true, false, not, ◌&&◌, List, [], ◌∷◌, ◌++◌, Option, none, some, String,
  leb, ◌==◌, length, any, same, if◌then◌else◌,
}

pub data ObservationKind : Type 0 where
  gsi_payload log_event cv_detections api_enrichment : ObservationKind

pub record Observation : Type 0 where
  pub kind : ObservationKind
  pub source_id : String
  pub seq : ℕ

abbrev pub sheddable : ObservationKind → Bool
sheddable cv_detections = true
sheddable _ = false

abbrev pub is_shed : Observation → Bool
is_shed o = sheddable o.kind

abbrev pub default_bound : ℕ
default_bound = 64

unfoldable pub ObservationKind-discrete : Discrete ObservationKind
ObservationKind-discrete = hlevel

-- The maps are functions, 0 or `none` where there is no entry.
pub record ObservationBus : Type 0 where
  pub queue : List Observation
  pub draining : Bool
  pub dropped : ObservationKind → ℕ
  pub gaps : String → ℕ
  pub last_seq : String → Option ℕ
  pub heard : List Observation
  pub delivered : List Observation

abbrev pub create_observation_bus : ObservationBus
create_observation_bus = record {
  queue = [];
  draining = false;
  dropped = λ kind. 0;
  gaps = λ source. 0;
  last_seq = λ source. none;
  heard = [];
  delivered = [];
}

abbrev pub bump : (ObservationKind → ℕ) → ObservationKind → ObservationKind → ℕ
bump counts kind j = let n = counts j in if same ObservationKind-discrete j kind then suc n else n

abbrev pub drop_one : ObservationBus → ObservationKind → ObservationBus
drop_one b kind = record b { dropped = bump b.dropped kind }

abbrev pub put {ℓ} : {A : Type ℓ} → (String → A) → String → A → String → A
put f key value j = if str_eq j key then value else f j

abbrev pub gaps_after : (String → ℕ) → Option ℕ → Observation → String → ℕ
gaps_after gaps none o = gaps
gaps_after gaps (some previous) o =
    if o.seq == previous + 1 then gaps else put gaps o.source_id (gaps o.source_id + 1)

unfoldable pub note_seq : ObservationBus → Observation → ObservationBus
note_seq b o = record b {
  last_seq = put b.last_seq o.source_id (some o.seq);
  gaps = gaps_after b.gaps (b.last_seq o.source_id) o;
}

-- `queue.findIndex` and `queue.splice`: the queue without its first sheddable entry, and that entry.
unfoldable pub shed_first : List Observation → Option (Observation × List Observation)
shed_first [] = none
shed_first (x ∷ xs) =
    if is_shed x
    then some (x, xs)
    else elim (shed_first xs) [ none ↦ none | some (y, ys) ↦ some (y, x ∷ ys) ]

abbrev pub add_to : ObservationBus → Observation → ObservationBus
add_to b o = record b { queue = b.queue ++ o ∷ [] }

abbrev pub shed_and_add :
    ObservationBus → Observation → Option (Observation × List Observation) → ObservationBus
shed_and_add b o none = drop_one b o.kind
shed_and_add b o (some (shed, rest)) = add_to (drop_one (record b { queue = rest }) shed.kind) o

-- `publish` up to `if (draining) return`, which is all of a call while a delivery is under way.
unfoldable pub enqueue : ℕ → ObservationBus → Observation → ObservationBus
unfolding note_seq shed_first
enqueue bound b o =
    let c = note_seq (record b { heard = b.heard ++ o ∷ [] }) o in
    if leb bound (length c.queue) && is_shed o
    then shed_and_add c o (shed_first c.queue)
    else add_to c o

unfoldable pub enqueue_all : ℕ → ObservationBus → List Observation → ObservationBus
enqueue_all bound b [] = b
enqueue_all bound b (o ∷ os) = enqueue_all bound (enqueue bound b o) os

-- What is published during a delivery, and whether a subscriber throws.
abbrev pub Subscribers : Type 0
Subscribers = List Observation → Observation → List Observation × Bool

-- The `finally` block.
abbrev pub settle : ObservationBus → ObservationBus
settle b = record b { draining = false; queue = [] }

-- How a call of `publish` ends: `threw` passes a subscriber's error on.
pub data Ended : Type 0 where
  returned threw : ObservationBus → Ended

module _ (bound : ℕ) (subscribers : Subscribers) where
  -- One turn of the loop, for the entry that was shifted off.
  abbrev pub deliver : ObservationBus → Observation → List Observation → ObservationBus
  deliver b o rest =
      enqueue_all bound (record b { queue = rest; delivered = b.delivered ++ o ∷ [] })
        (subscribers b.delivered o).0

  unfoldable pub drain : ℕ → ObservationBus → Option Ended
  unfolding enqueue_all
  drain zero b = none
  drain (suc fuel) b = elim b.queue [
    | [] ↦ some (returned (settle b))
    | o ∷ rest ↦ elim ((subscribers b.delivered o).1) [
      | true ↦ some (threw (settle (deliver b o rest)))
      | false ↦ drain fuel (deliver b o rest)
    ]
  ]

  -- From `if (draining) return` on. Where the observation itself was shed, the code has returned
  -- before.
  abbrev pub drain_unless : Bool → Bool → ℕ → ObservationBus → Option Ended
  drain_unless true dropped fuel c = some (returned c)
  drain_unless false true fuel c = some (returned c)
  drain_unless false false fuel c = drain fuel (record c { draining = true })

  unfoldable pub publish : ℕ → ObservationBus → Observation → Option Ended
  unfolding drain enqueue
  publish fuel b o =
      let dropped = leb bound (length b.queue) && is_shed o && not (any is_shed b.queue) in
      drain_unless b.draining dropped fuel (enqueue bound b o)

-- The depth, and the two maps.
abbrev pub stats : ObservationBus → ℕ × (ObservationKind → ℕ) × (String → ℕ)
stats b = (length b.queue, b.dropped, b.gaps)
