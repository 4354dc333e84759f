-- ===== src/World/State.antt =====
-- state.ts, lines 301 to 400: the leaves of the world state, read and written by path. A record of
-- optional facts and a map are functions of the key; `of_hero` makes a value of a hero's id. The
-- store's own `history` of deltas is left out.
pub mod Laws
use text.Mathlib.Text.{◌==◌ as str_eq}
use riki.Prelude.{ℕ, Bool, true, false, List, Option, none, some, String, if◌then◌else◌}
use riki.World.Fact.{Fact}
use riki.World.History.{Ring}
use riki.World.Path.{
  FieldPath, ParsedPath, meta, self, map, allies, enemies, items_seen, parse_path,
}

abbrev pub Fields : Type 0 → Type 0
Fields V = String → Option (Fact V)

pub record EnemyState (V : Type 0) : Type 0 where
  pub fields : Fields V
  pub items : Fields V

pub record ChatLine : Type 0 where
  pub text : String
  pub speaker : Option String
  pub channel : String

pub record WorldState (V : Type 0) : Type 0 where
  pub version : ℕ
  pub last_updated_at : ℕ
  pub meta_fields : Fields V
  pub self_fields : Fields V
  pub map_fields : Fields V
  pub ally_states : String → Option (Fields V)
  pub enemy_states : String → Option (EnemyState V)
  pub chat : Ring ChatLine

-- `{ ...record, [key]: value }`, and `map.set(key, value)` on a copy
abbrev pub update {ℓ} : {A : Type ℓ} → (String → Option A) → String → A → String → Option A
update f key value j = if str_eq j key then some value else f j

module _ {V : Type 0} where
  abbrev pub ally_field : Option (Fields V) → String → Option (Fact V)
  ally_field none key = none
  ally_field (some ally) key = ally key

  abbrev pub enemy_field : Option (EnemyState V) → String → Option (Fact V)
  enemy_field none key = none
  enemy_field (some enemy) key = enemy.fields key

  abbrev pub enemy_item : Option (EnemyState V) → String → Option (Fact V)
  enemy_item none item = none
  enemy_item (some enemy) item = enemy.items item

  abbrev pub read_parsed : WorldState V → ParsedPath → Option (Fact V)
  read_parsed s (meta key) = s.meta_fields key
  read_parsed s (self key) = s.self_fields key
  read_parsed s (map key) = s.map_fields key
  read_parsed s (allies hero key) = ally_field (s.ally_states hero) key
  read_parsed s (enemies hero key) = enemy_field (s.enemy_states hero) key
  read_parsed s (items_seen hero item) = enemy_item (s.enemy_states hero) item

  unfoldable pub read_fact : WorldState V → FieldPath → Option (Fact V)
  read_fact s path = elim (parse_path path) [ none ↦ none | some parsed ↦ read_parsed s parsed ]

module _ {V : Type 0} (of_hero : String → V) where
  -- What a new entry holds: the hero, with the provenance of the fact that made it.
  abbrev pub new_fields : String → Fact V → Fields V
  new_fields hero from key =
      if str_eq key "hero" then some (record from { value = of_hero hero }) else none

  abbrev pub ally_or_new : Option (Fields V) → String → Fact V → Fields V
  ally_or_new none hero from = new_fields hero from
  ally_or_new (some ally) hero from = ally

  abbrev pub enemy_or_new : Option (EnemyState V) → String → Fact V → EnemyState V
  enemy_or_new none hero from = record { fields = new_fields hero from; items = λ _. none }
  enemy_or_new (some enemy) hero from = enemy

  abbrev pub write_parsed : WorldState V → ParsedPath → Fact V → WorldState V
  write_parsed s (meta key) fact = record s { meta_fields = update s.meta_fields key fact }
  write_parsed s (self key) fact = record s { self_fields = update s.self_fields key fact }
  write_parsed s (map key) fact = record s { map_fields = update s.map_fields key fact }
  write_parsed s (allies hero key) fact =
      let ally = ally_or_new (s.ally_states hero) hero fact in
      record s { ally_states = update s.ally_states hero (update ally key fact) }
  write_parsed s (enemies hero key) fact =
      let base = enemy_or_new (s.enemy_states hero) hero fact in
      let enemy = record base { fields = update base.fields key fact } in
      record s { enemy_states = update s.enemy_states hero enemy }
  write_parsed s (items_seen hero item) fact =
      let base = enemy_or_new (s.enemy_states hero) hero fact in
      let enemy = record base { items = update base.items item fact } in
      record s { enemy_states = update s.enemy_states hero enemy }

  unfoldable pub write_fact : WorldState V → FieldPath → Fact V → WorldState V
  write_fact s path fact = elim (parse_path path) [
    | none ↦ s
    | some parsed ↦ write_parsed s parsed fact
  ]
