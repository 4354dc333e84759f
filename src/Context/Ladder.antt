-- ===== src/Context/Ladder.antt =====
-- snapshot/ladder.ts: the table of sections and the closure of a set of drops under `dropsWith`.
-- The stack `pending` has its top at the head of the list. `Map` keeps the last entry of an id.
pub mod Closure
mod Tests
use text.Mathlib.Text.{◌==◌ as str_eq}
use riki.Prelude.{
  ℕ, zero, suc, ◌+◌, Bool, true, false, List, [], ◌∷◌, ◌++◌, Option, none, some, String, any,
  length, if◌then◌else◌,
}

pub record LadderEntry : Type 0 where
  pub id : String
  pub priority : ℕ
  pub droppable : Bool
  pub drops_with : List String

abbrev pub entry : String → ℕ → Bool → List String → LadderEntry
entry id priority droppable drops_with = record {
  id = id;
  priority = priority;
  droppable = droppable;
  drops_with = drops_with;
}

abbrev pub snapshot_ladder : List LadderEntry
snapshot_ladder =
    entry "header" 100 false []
    ∷ entry "self_economy" 90 false []
    ∷ entry "self_abilities" 80 false []
    ∷ entry "self_items" 70 false []
    ∷ entry "enemies" 60 false []
    ∷ entry "seen" 50 true ("unseen" ∷ [])
    ∷ entry "unseen" 45 true ("seen" ∷ [])
    ∷ entry "derived" 40 true []
    ∷ entry "map" 30 true []
    ∷ []

-- `byId.get(id)`
unfoldable pub find_entry : List LadderEntry → String → Option LadderEntry
find_entry [] id = none
find_entry (e ∷ es) id = elim (find_entry es id) [
  | some later ↦ some later
  | none ↦ if str_eq e.id id then some e else none
]

-- `byId.get(id)?.dropsWith ?? []`
unfoldable pub drops_with_of : List LadderEntry → String → List String
unfolding find_entry
drops_with_of entries id = elim (find_entry entries id) [ none ↦ [] | some e ↦ e.drops_with ]

-- `out.has(id)`
abbrev pub member : List String → String → Bool
member out id = any (λ x. str_eq x id) out

abbrev pub push_all : List String → List String → List String
push_all [] pending = pending
push_all (x ∷ xs) pending = push_all xs (x ∷ pending)

abbrev pub all_drops : List LadderEntry → ℕ
all_drops [] = 0
all_drops (e ∷ es) = length e.drops_with + all_drops es

module _ (entries : List LadderEntry) where
  unfoldable pub close : ℕ → List String → List String → Option (List String)
  close zero pending out = none
  close (suc fuel) [] out = some out
  close (suc fuel) (id ∷ pending) out =
      let skip = close fuel pending out in
      let add = close fuel (push_all (drops_with_of entries id) pending) (out ++ id ∷ []) in
      if member out id then skip else add

  -- Each id is expanded once, so this many rounds are enough.
  unfoldable pub closure : List String → Option (List String)
  closure dropping = close (length dropping + all_drops entries + 1) (push_all dropping []) []
