-- ===== src/Sources/Bus/Tests.antt =====
-- Subscribers of the bus on concrete observations.
use riki.Prelude.{
  ℕ, ◌+◌, ◌*◌, ◌<◌, ◌≡◌, refl, Bool, true, false, List, [], ◌∷◌, Option, none, some, arith, length,
  map,
}
use riki.Sources.Bus.{
  ObservationKind, gsi_payload, log_event, cv_detections, api_enrichment, Observation,
  ObservationBus, create_observation_bus, Subscribers, Ended, returned, threw, publish, drain,
  enqueue, enqueue_all, note_seq, shed_first, ObservationKind-discrete,
}
use riki.Sources.Bus.Queue.{weight_of}
use riki.Sources.Bus.Deliveries.{Calm, Idle, Later, publish-Idle}

abbrev from_gsi : ℕ → Observation
from_gsi seq = record { kind = gsi_payload; source_id = "gsi"; seq = seq }

abbrev from_log : ℕ → Observation
from_log seq = record { kind = log_event; source_id = "log-tail"; seq = seq }

abbrev from_cv : ℕ → Observation
from_cv seq = record { kind = cv_detections; source_id = "vision"; seq = seq }

-- A payload of the game makes a subscriber publish a log line and detections.
abbrev echo : ObservationKind → List Observation
echo gsi_payload = from_cv 1 ∷ from_log 1 ∷ []
echo _ = []

abbrev echoing : Subscribers
echoing delivered o = (echo o.kind, false)

-- The same, with detections twice.
abbrev shed_echo : ObservationKind → List Observation
shed_echo gsi_payload = from_cv 1 ∷ from_cv 2 ∷ from_log 1 ∷ []
shed_echo _ = []

abbrev shedding : Subscribers
shedding delivered o = (shed_echo o.kind, false)

abbrev weight : Observation → ℕ
weight o = length (echo o.kind) * 2 + 1

abbrev throws_at : ObservationKind → Bool
throws_at gsi_payload = true
throws_at _ = false

abbrev throwing : Subscribers
throwing delivered o = (echo o.kind, throws_at o.kind)

abbrev seqs : Option Ended → List ℕ
seqs (some (returned b)) = map (λ o. o.seq) b.delivered
seqs (some (threw b)) = map (λ o. o.seq) b.delivered
seqs none = []

abbrev accounts : Option Ended → ℕ × ℕ × ℕ × ℕ
accounts (some (returned b)) =
    (length b.heard, length b.delivered, length b.queue, b.dropped cv_detections)
accounts (some (threw b)) =
    (length b.heard, length b.delivered, length b.queue, b.dropped cv_detections)
accounts none = (0, 0, 0, 0)

delivers_in_turn : seqs (publish 64 echoing 9 create_observation_bus (from_gsi 7)) ≡ 7 ∷ 1 ∷ 1 ∷ []
unfolding publish drain enqueue enqueue_all note_seq shed_first
delivers_in_turn = refl

-- At a bound of one, newer detections take the place of older ones, and the log line comes after.
sheds_oldest : accounts (publish 1 shedding 9 create_observation_bus (from_gsi 7)) ≡ (4, 3, 0, 1)
unfolding publish drain enqueue enqueue_all note_seq shed_first ObservationKind-discrete
sheds_oldest = refl

-- The subscriber has published a log line, and throws: the line is neither delivered nor counted.
loses_on_throw : accounts (publish 64 throwing 9 create_observation_bus (from_gsi 7)) ≡ (3, 1, 0, 0)
unfolding publish drain enqueue enqueue_all note_seq shed_first
loses_on_throw = refl

echo_light : (k : ObservationKind) → weight_of weight (echo k) < length (echo k) * 2 + 1
echo_light gsi_payload = omega arith
echo_light log_event = omega arith
echo_light cv_detections = omega arith
echo_light api_enrichment = omega arith

echoing-Calm : Calm 64 echoing weight
echoing-Calm delivered o = (echo_light o.kind, refl)

create-Idle : Idle create_observation_bus
create-Idle = record {
  balanced = record { in_order = refl; accounted = refl };
  empty = refl;
  resting = refl;
}

publish-Idle_example :
    (c : ObservationBus) × (publish 64 echoing 9 create_observation_bus (from_gsi 7)
      ≡ some (returned c))
    × Idle c
    × Later (record create_observation_bus { heard = from_gsi 7 ∷ [] }) c
publish-Idle_example =
    publish-Idle 64 echoing weight echoing-Calm 9 create_observation_bus (from_gsi 7) (omega arith)
      create-Idle
