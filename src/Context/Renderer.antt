-- ===== src/Context/Renderer.antt =====
-- snapshot/renderer.ts: the snapshot of a turn. What the sources build is an argument. A candidate
-- leaves by its id, so whether a built section is still among the candidates is asked by id too. The
-- loop takes fuel, of which `render` gives it more than there are sections.
pub mod Rounds
pub mod Sections
mod Tests
use text.Mathlib.Text.{◌==◌ as str_eq}
use riki.Prelude.{
  ℕ, zero, suc, ◌+◌, Bool, true, false, not, List, [], ◌∷◌, ◌++◌, Option, none, some, String, map,
  filter, ◌==◌, length, if◌then◌else◌,
}
use riki.Context.Compose.{Section, Budget, Composed, compose}
use riki.Context.Ladder.{LadderEntry, find_entry, member, closure}

pub record RenderedSnapshot : Type 0 where
  pub text : List String
  pub tokens : ℕ
  pub sections : List Section
  pub truncated : Bool
  pub omitted : List String

-- The id of a source, and what it builds.
abbrev pub Built : Type 0
Built = String × Option Section

abbrev pub section_ids : List Section → List String
section_ids sections = map (λ s. s.id) sections

-- `new Set(ids)`, in the order of insertion; `seen` came before.
abbrev pub distinct : List String → List String → List String
distinct seen [] = []
distinct seen (id ∷ ids) =
    let old = distinct seen ids in
    let new = id ∷ distinct (id ∷ seen) ids in if member seen id then old else new

module _ (entries : List LadderEntry) where
  -- A section gets its priority from the ladder.
  abbrev pub placed_by : Option LadderEntry → Option Section → Option Section
  placed_by none section = none
  placed_by (some e) none = none
  placed_by (some e) (some section) =
      some (record section { priority = e.priority; droppable = e.droppable })

  abbrev pub add_built :
      String → Option Section → List Section × List String → List Section × List String
  add_built id none acc = (acc.0, id ∷ acc.1)
  add_built id (some s) acc = (s ∷ acc.0, acc.1)

  -- The loop over the sources: `built` and `missing`.
  unfoldable pub build : List Built → List Section × List String
  build [] = ([], [])
  build ((id, section) ∷ sources) =
      add_built id (placed_by (find_entry entries id) section) (build sources)

  module _ (separator_cost : ℕ) (budget : Budget) where
    unfoldable pub rounds : ℕ → List Section → Option (List Section × Composed)
    rounds zero candidates = none
    rounds (suc fuel) candidates =
        let composed = compose separator_cost budget candidates in
        elim (closure entries composed.omitted) [
          | none ↦ none
          | some wanted ↦
              let next = filter (λ s. not (member wanted s.id)) candidates in
              let more = rounds fuel next in
              if length next == length candidates then some (candidates, composed) else more
        ]

    abbrev pub finish :
        List Section → List String → Option (List Section × Composed) → Option RenderedSnapshot
    finish built missing none = none
    finish built missing (some (candidates, composed)) =
        let dropped = filter (λ s. not (member (section_ids candidates) s.id)) built in
        some (record {
          text = composed.text;
          tokens = composed.tokens;
          sections = candidates;
          truncated = composed.truncated;
          omitted = missing ++ distinct [] (section_ids dropped ++ composed.omitted);
        })

    unfoldable pub render : List Built → Option RenderedSnapshot
    unfolding rounds
    render sources =
        let (built, missing) = build sources in
        finish built missing (rounds (length built + 1) built)
