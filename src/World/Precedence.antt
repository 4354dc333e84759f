-- ===== src/World/Precedence.antt =====
-- fusion/precedence.ts: who is allowed to write what. A class and a rank belong to a path once it
-- is parsed; `undefined` existing facts are `none`.
use text.Mathlib.Text.{◌==◌ as str_eq}
use riki.Prelude.{ℕ, ◌+◌, ◌&&◌, ◌||◌, Option, none, some, String, ltb, same, ◌==◌, if◌then◌else◌}
use riki.World.Fact.{FactSource, FactSource-discrete, gsi, log, cv, api, Fact}
use riki.World.Path.{FieldPath, ParsedPath, parse_path}

pub data FieldClass : Type 0 where
  self buildings meta roster enemy_position enemy_liveness enemy_progress chat derived : FieldClass

pub data Refusal : Type 0 where
  lower_rank gsi_shadow older lower_confidence : Refusal

pub data PrecedenceVerdict : Type 0 where
  write : PrecedenceVerdict
  refuse : Refusal → PrecedenceVerdict

pub record PrecedenceOptions : Type 0 where
  pub gsi_shadow_window_ms : ℕ
  pub confidence_window_ms : ℕ

abbrev pub default_precedence_options : PrecedenceOptions
default_precedence_options = record { gsi_shadow_window_ms = 2000; confidence_window_ms = 2000 }

-- `RANKS[cls][source] ?? 0`
unfoldable pub rank_for : FieldClass → FactSource → ℕ
rank_for FieldClass.self gsi = 3
rank_for FieldClass.buildings gsi = 3
rank_for FieldClass.meta gsi = 3
rank_for FieldClass.meta api = 1
rank_for FieldClass.roster gsi = 3
rank_for FieldClass.roster cv = 2
rank_for FieldClass.enemy_position cv = 3
rank_for FieldClass.enemy_liveness log = 3
rank_for FieldClass.enemy_liveness cv = 2
rank_for FieldClass.enemy_progress cv = 3
rank_for FieldClass.chat log = 3
rank_for FieldClass.chat cv = 2
rank_for FieldClass.derived FactSource.derived = 3
rank_for _ _ = 0

hero_class : String → FieldClass
hero_class key =
    if str_eq key "hero"
    then FieldClass.roster
    else if str_eq key "position" || str_eq key "lastSeenAt"
    then FieldClass.enemy_position
    else if str_eq key "alive" || str_eq key "respawnIn"
    then FieldClass.enemy_liveness
    else FieldClass.enemy_progress

unfoldable pub class_of_parsed : ParsedPath → FieldClass
unfolding hero_class
class_of_parsed (ParsedPath.meta key) = FieldClass.meta
class_of_parsed (ParsedPath.self key) = FieldClass.self
class_of_parsed (ParsedPath.map key) =
    if str_eq key "buildings"
    then FieldClass.buildings
    else if str_eq key "roshanState"
    then FieldClass.enemy_liveness
    else if str_eq key "wardsSeen"
    then FieldClass.enemy_position
    else FieldClass.meta
class_of_parsed (ParsedPath.items_seen hero item) = FieldClass.enemy_progress
class_of_parsed (ParsedPath.allies hero key) = hero_class key
class_of_parsed (ParsedPath.enemies hero key) = hero_class key

unfoldable pub class_of_path : FieldPath → FieldClass
class_of_path field = elim (parse_path field) [
  | none ↦ FieldClass.derived
  | some parsed ↦ class_of_parsed parsed
]

module _ {ℓ} {V : Type ℓ} (opts : PrecedenceOptions) where
  -- The rules of `canWrite` for a field that has a fact, in their order.
  unfoldable pub can_replace : FieldClass → Fact V → Fact V → ℕ → PrecedenceVerdict
  can_replace cls incoming existing now =
      let incoming_rank = rank_for cls incoming.source in
      let existing_rank = rank_for cls existing.source in
      if ltb incoming_rank existing_rank
      then if ltb now (existing.observed_at + opts.gsi_shadow_window_ms)
        then refuse gsi_shadow
        else write
      else if ltb incoming.observed_at existing.observed_at
      then refuse older
      else if same FactSource-discrete incoming.source existing.source
          && ltb incoming.confidence existing.confidence
          && ltb now (existing.observed_at + opts.confidence_window_ms)
      then refuse lower_confidence
      else write

  unfoldable pub can_write : FieldPath → Fact V → Option (Fact V) → ℕ → PrecedenceVerdict
  unfolding can_replace
  can_write field incoming existing now =
      let cls = class_of_path field in
      if rank_for cls incoming.source == 0
      then refuse lower_rank
      else elim existing [ none ↦ write | some fact ↦ can_replace cls incoming fact now ]
