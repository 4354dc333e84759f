-- ===== src/Context/Renderer/Sections.antt =====
-- Which sections a rendered snapshot has.
use riki.Prelude.{
  ℕ, ◌+◌, ◌≤◌, ◌≡◌, ◌⊎◌, inl, inr, refl, ap, sym, subst, ◌∙◌, Bool, true, false, not, ◌||◌, all,
  List, [], ◌∷◌, Option, none, some, String, map, arith, any, filter, length, ltb, Bool-cases,
}
use text.Mathlib.Text.{◌==◌ as str_eq}
use text.Mathlib.TextEquality.{eq_iff}
use riki.Context.Compose.{Section, Budget, Composed, compose}
use riki.Context.Compose.Kept.{omitted-nil}
use riki.Context.Ladder.{LadderEntry, find_entry, drops_with_of, member}
use riki.Context.Renderer.{
  RenderedSnapshot, Built, section_ids, placed_by, add_built, build, finish, render,
}
use riki.Context.Renderer.Rounds.{
  composed_of, rounds_total, Ends, rounds-Ends, Ends-pairs, Ends-settled, Ends-fixed, ladder_drops,
  Keyed, is_fixed,
}

-- Every section that is built has the id of its source.
abbrev pub Named : List Built → Type 0
Named [] = Unit {0}
Named ((id, none) ∷ sources) = Named sources
Named ((id, some s) ∷ sources) = (s.id ≡ id) × Named sources

module _ (entries : List LadderEntry) (separator_cost : ℕ) (budget : Budget) where
  abbrev pub built_of : List Built → List Section
  built_of sources = (build entries sources).0

  finished :
      (built : List Section) (missing : List String) (final : List Section) (c : Composed)
      → (r : RenderedSnapshot) × (finish entries separator_cost budget built missing
            (some (final, c))
          ≡ some r)
        × (r.sections ≡ final)
        × (r.text ≡ c.text)
        × (r.tokens ≡ c.tokens)
        × (r.truncated ≡ c.truncated)
  finished built missing final c = (_, refl, refl, refl, refl, refl)

  render-Ends :
      (sources : List Built)
      → (r : RenderedSnapshot) × (render entries separator_cost budget sources ≡ some r)
        × Ends entries separator_cost budget (built_of sources) r.sections
        × (r.text ≡ (composed_of entries separator_cost budget r.sections).text)
        × (r.tokens ≡ (composed_of entries separator_cost budget r.sections).tokens)
        × (r.truncated ≡ (composed_of entries separator_cost budget r.sections).truncated)
  unfolding render
  render-Ends sources =
      let built = built_of sources in
      let missing = (build entries sources).1 in
      let ((final, c), e) =
        rounds_total entries separator_cost budget (length built + 1) built (omega arith) in
      let (ends, same_) =
        rounds-Ends entries separator_cost budget (length built + 1) built final c e in
      let (r, done, sections, same_text, same_tokens, same_truncated) =
        finished built missing final c in
      let whole : c ≡ composed_of entries separator_cost budget r.sections =
        same_ ∙ ap (composed_of entries separator_cost budget) (sym sections) in
      (
        r,
        ap (finish entries separator_cost budget built missing) e ∙ done,
        subst (Ends entries separator_cost budget built) (sym sections) ends,
        same_text ∙ ap (λ x. x.text) whole,
        same_tokens ∙ ap (λ x. x.tokens) whole,
        same_truncated ∙ ap (λ x. x.truncated) whole,
      )

  Keyed-add_built :
      (id : String) (o : Option LadderEntry) (section : Option Section)
      (acc : List Section × List String)
      → find_entry entries id ≡ o
      → Named ((id, section) ∷ [])
      → Keyed entries separator_cost budget acc.0
      → Keyed entries separator_cost budget
          (add_built entries id (placed_by entries o section) acc).0
  Keyed-add_built id none section acc e n k = k
  Keyed-add_built id (some entry) none acc e n k = k
  Keyed-add_built id (some entry) (some s) acc e n k = (ground (arith, ap find_at n.0, e), k)
    where
      find_at : String → Option LadderEntry
      find_at x = find_entry entries x

  Named-head :
      (id : String) (section : Option Section) (sources : List Built)
      → Named ((id, section) ∷ sources)
      → Named ((id, section) ∷ []) × Named sources
  Named-head id none sources n = (tt, n)
  Named-head id (some s) sources n = ((n.0, tt), n.1)

  Keyed-build :
      (sources : List Built)
      → Named sources
      → Keyed entries separator_cost budget (built_of sources)
  unfolding build
  Keyed-build [] n = tt
  Keyed-build ((id, section) ∷ sources) n =
      let (head, rest) = Named-head id section sources n in
      Keyed-add_built id (find_entry entries id) section (build entries sources) refl head
        (Keyed-build sources rest)

  -- No section of `left` is one that the ladder drops with a section of `built` that is not left.
  abbrev pub is_closed : List Section → List Section → Bool
  is_closed built left =
      all
        (λ x.
          member (section_ids left) x
          || not (any (λ y. member (drops_with_of entries x) y) (section_ids left)))
        (section_ids built)

  str_eq_self : (x : String) → str_eq x x ≡ true
  str_eq_self x = (eq_iff x x).1 refl

  alone-lem :
      (x : String) (ys : List String)
      → ((y : String) → member (drops_with_of entries x) y ≡ true → member ys y ≡ false)
      → any (λ y. member (drops_with_of entries x) y) ys ≡ false
  alone-lem x [] h = refl
  alone-lem x (y ∷ ys) h = elim (Bool-cases (member (drops_with_of entries x) y)) [
    | inl t ↦ absurd (ground (arith, h y t, str_eq_self y))
    | inr f ↦ rw f (alone-lem x ys (λ z t. ground (arith, h z t)))
  ]

  all_members :
      (q : String → Bool) (xs : List String)
      → ((x : String) → member xs x ≡ true → q x ≡ true)
      → all q xs ≡ true
  all_members q [] h = refl
  all_members q (x ∷ xs) h = ground (
    arith,
    h x (ground (arith, str_eq_self x)),
    all_members q xs (λ z t. h z (ground (arith, t))),
  )

  Ends-is_closed :
      (built left : List Section)
      → Ends entries separator_cost budget built left
      → is_closed built left ≡ true
  Ends-is_closed built left ends = all_members _ (section_ids built) (λ x there.
      elim (Bool-cases (member (section_ids left) x)) [
        | inl stays ↦ rw stays refl
        | inr gone ↦
            rw
              (
                gone,
                alone-lem x (section_ids left) (λ y pair.
                    Ends-pairs entries separator_cost budget built left x y ends there gone pair),
              )
              refl
      ])

  -- The renderer always ends with a snapshot, whatever the ladder, the sections and the budget. Its
  -- text has one line for each of its sections; it fits the budget, or has no section left that may
  -- be dropped; and of each section that was built and is not in the snapshot, no section that the
  -- ladder drops with it is in the snapshot either.
  pub render_total :
      (sources : List Built)
      → (r : RenderedSnapshot) × (render entries separator_cost budget sources ≡ some r)
        × (r.text ≡ map (λ s. s.line) r.sections)
        × ((r.tokens + budget.spent_tokens ≤ budget.max_tokens)
            ⊎ (any (λ s. s.droppable) r.sections ≡ false))
        × (is_closed (built_of sources) r.sections ≡ true)
  render_total sources =
      let (r, e, ends, text, tokens, truncated) = render-Ends sources in
      let built = built_of sources in
      let settled = Ends-settled entries separator_cost budget built r.sections ends in
      let (lines, fits) = omitted-nil separator_cost budget r.sections settled in
      (
        r,
        e,
        text ∙ lines,
        elim fits [ inl le ↦ inl (rw tokens le) | inr end ↦ inr end ],
        Ends-is_closed built r.sections ends,
      )

  -- If the ladder lets only droppable sections drop with droppable ones, the sections that are not
  -- droppable are all in the snapshot, in their order, under any budget.
  pub render_keeps_fixed :
      (sources : List Built)
      → ((x y : String)
          → ladder_drops entries separator_cost budget x ≡ true
          → member (drops_with_of entries x) y ≡ true
          → ladder_drops entries separator_cost budget y ≡ true)
      → Named sources
      → (r : RenderedSnapshot) × (render entries separator_cost budget sources ≡ some r)
        × (filter (is_fixed entries separator_cost budget) r.sections
            ≡ filter (is_fixed entries separator_cost budget) (built_of sources))
  render_keeps_fixed sources paired named =
      let (r, e, ends, text, tokens, truncated) = render-Ends sources in
      (
        r,
        e,
        Ends-fixed entries separator_cost budget paired (built_of sources) r.sections
            (Keyed-build sources named) ends,
      )

  -- A snapshot says that it is truncated exactly if it does not fit the budget: when sections were
  -- dropped and the rest fits, it says that it is whole.
  pub render_truncated :
      (sources : List Built)
      → (r : RenderedSnapshot) × (render entries separator_cost budget sources ≡ some r)
        × (r.truncated ≡ ltb budget.max_tokens (r.tokens + budget.spent_tokens))
  unfolding compose
  render_truncated sources =
      let (r, e, ends, text, tokens, truncated) = render-Ends sources in
      let settled = Ends-settled entries separator_cost budget (built_of sources) r.sections ends in
      (r, e, ground (arith, truncated, tokens, settled))
