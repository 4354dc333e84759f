-- ===== src/World/Fusion/Tests.antt =====
-- A GSI post and a computer vision frame that compete for the same leaves.
use riki.Prelude.{◌+◌, ◌≤◌, ◌<◌, ◌≡◌, ◌⊎◌, refl, List, [], ◌∷◌, none, some, String, pos, length}
use riki.World.Fact.{Fact, FactSource-discrete, gsi, cv, Timestamps, certain}
use riki.World.Path.{FieldPath, ParsedPath, parse_path}
use riki.World.Precedence.{
  FieldClass, default_precedence_options, rank_for, class_of_parsed, class_of_path, can_write,
}
use riki.World.State.{WorldState, Fields, update, read_fact, write_fact, read_parsed}
use riki.World.State.Laws.{read_fact-write_fact}
use riki.World.Fusion.{
  ConfidenceGate, default_confidence_threshold, Candidate, admit, passes_gate, fuse_one, fuse,
}
use riki.World.Fusion.Laws.{fuse_recent, fuse_ranked, fuse_accounts}

abbrev health : Fact String
health = record {
  value = "420/600";
  source = gsi;
  confidence = certain;
  observed_at = 5_000;
  at_game_clock = some (pos 61);
  origin = none;
}

abbrev guessed : Fact String
guessed = record health {
  value = "400/600";
  source = cv;
  confidence = 910_000;
  observed_at = 5_100;
}

abbrev seen : Fact String
seen = record guessed { value = "1200,-300" }

abbrev no_fields : Fields String
no_fields key = none

abbrev world : WorldState String
world = record {
  version = 7;
  last_updated_at = 4_000;
  meta_fields = no_fields;
  self_fields = update no_fields "health" health;
  map_fields = no_fields;
  ally_states = λ hero. none;
  enemy_states = λ hero. none;
  chat = record { window_seconds = 300; max_entries = 50; slots = [] };
}

abbrev gate : ConfidenceGate
gate = record { thresholds = λ detector. none; fallback = default_confidence_threshold }

abbrev health_path : FieldPath
health_path = "self" ∷ "health" ∷ []

abbrev position_path : FieldPath
position_path = "enemies" ∷ "sf" ∷ "position" ∷ []

abbrev frame : List (Candidate String)
frame =
    (record { path = health_path; fact = guessed; detector = some "bars" })
    ∷ (record { path = position_path; fact = seen; detector = some "minimap" })
    ∷ []

abbrev frame_at : Timestamps
frame_at = record { observed_at = 5_100; at_game_clock = some (pos 61) }

-- The frame's health is refused, and its sighting lands.
frame_lands :
    (fuse (λ hero. hero) default_precedence_options gate world frame [] [] frame_at 5_150).accepted
    ≡ 1
unfolding fuse fuse_one passes_gate admit can_write class_of_path class_of_parsed parse_path
    rank_for read_fact write_fact FactSource-discrete
frame_lands = refl

read_fact-write_fact_example :
    (read_fact (write_fact (λ hero. hero) world position_path seen) position_path ≡ some seen)
    × (read_fact (write_fact (λ hero. hero) world position_path seen) health_path ≡ some health)
unfolding parse_path read_fact
read_fact-write_fact_example =
    read_fact-write_fact (λ hero. hero) world position_path health_path
      (ParsedPath.enemies "sf" "position") (ParsedPath.self "health") seen health refl refl refl

fuse_recent_example :
    (f : Fact String) × (read_parsed
        (fuse (λ hero. hero) default_precedence_options gate world frame [] [] frame_at 5_150).state
        (ParsedPath.self "health")
      ≡ some f)
    × ((5_000 ≤ f.observed_at) ⊎ (5_000 + 2_000 ≤ 5_150))
fuse_recent_example =
    fuse_recent (λ hero. hero) default_precedence_options gate world frame [] [] frame_at 5_150
      (ParsedPath.self "health") health refl

fuse_ranked_example :
    (read_parsed world (ParsedPath.self "health") ≡ some health)
    ⊎ (0 < rank_for FieldClass.self gsi)
    ⊎ (FieldClass.self ≡ FieldClass.roster)
unfolding class_of_parsed fuse fuse_one passes_gate admit can_write class_of_path parse_path
    rank_for read_fact write_fact FactSource-discrete
fuse_ranked_example =
    fuse_ranked (λ hero. hero) default_precedence_options gate world frame [] [] frame_at 5_150
      (ParsedPath.self "health") health refl

fuse_accounts_example :
    let out =
      fuse (λ hero. hero) default_precedence_options gate world frame [] [] frame_at 5_150 in
    (out.accepted + length out.rejections ≡ 2)
    × ((out.state ≡ world) ⊎ (0 < out.accepted) ⊎ (0 < 0))
fuse_accounts_example =
    fuse_accounts (λ hero. hero) default_precedence_options gate world frame [] [] frame_at 5_150
