-- ===== src/World/Path.antt =====
-- state.ts, lines 210 to 299: field paths. A path is given as its segments, the `parts` of
-- `path.split('.')`.
use text.Mathlib.Text.{◌==◌ as str_eq}
use riki.Prelude.{Bool, true, false, List, [], ◌∷◌, Option, none, some, String, any, if◌then◌else◌}

abbrev pub FieldPath : Type 0
FieldPath = List String

pub data ParsedPath : Type 0 where
  meta self map : String → ParsedPath
  allies enemies : String → String → ParsedPath
  items_seen : String → String → ParsedPath

-- `SET.has(key)`
abbrev pub has : List String → String → Bool
has keys key = any (λ k. str_eq k key) keys

abbrev pub meta_keys : List String
meta_keys = "matchId" ∷ "phase" ∷ "clock" ∷ "paused" ∷ "patch" ∷ "team" ∷ "mode" ∷ []

abbrev pub self_keys : List String
self_keys =
    "hero" ∷ "level" ∷ "xp" ∷ "alive" ∷ "respawnIn" ∷ "health" ∷ "mana" ∷ "position" ∷ "gold"
    ∷ "netWorth" ∷ "gpm" ∷ "xpm" ∷ "kda" ∷ "lastHits" ∷ "denies" ∷ "buyback" ∷ "abilities" ∷ "items"
    ∷ "statuses" ∷ []

abbrev pub map_keys : List String
map_keys = "buildings" ∷ "daytime" ∷ "roshanState" ∷ "wardsSeen" ∷ []

abbrev pub ally_keys : List String
ally_keys = "hero" ∷ "level" ∷ "alive" ∷ "netWorth" ∷ "position" ∷ "lastSeenAt" ∷ []

abbrev pub enemy_keys : List String
enemy_keys = "hero" ∷ "level" ∷ "alive" ∷ "respawnIn" ∷ "position" ∷ "netWorth" ∷ "lastSeenAt" ∷ []

-- Below `allies` and `enemies`: the segments behind the hero.
parse_hero : Bool → String → List String → Option ParsedPath
parse_hero of_enemies hero [] = none
parse_hero false hero (key ∷ rest) = if has ally_keys key then some (allies hero key) else none
parse_hero true hero (key ∷ []) =
    if str_eq key "itemsSeen"
    then none
    else if has enemy_keys key
    then some (enemies hero key)
    else none
parse_hero true hero (key ∷ item ∷ rest) =
    if str_eq key "itemsSeen"
    then some (items_seen hero item)
    else if has enemy_keys key
    then some (enemies hero key)
    else none

unfoldable pub parse_path : FieldPath → Option ParsedPath
unfolding parse_hero
parse_path [] = none
parse_path (root ∷ []) = none
parse_path (root ∷ second ∷ rest) =
    if str_eq root "meta"
    then if has meta_keys second then some (meta second) else none
    else if str_eq root "self"
    then if has self_keys second then some (self second) else none
    else if str_eq root "map"
    then if has map_keys second then some (map second) else none
    else if str_eq root "allies"
    then parse_hero false second rest
    else if str_eq root "enemies"
    then parse_hero true second rest
    else none
