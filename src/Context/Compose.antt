-- ===== src/Context/Compose.antt =====
-- render/compose.ts: sections under a budget. A section is known by its position in the array, in
-- place of its identity as an object, and `gone` has the positions that left the set `kept`. The
-- cost of the separator is a parameter, and the text is the list of the lines that it joins.
pub mod Drops
pub mod Kept
mod Tests
use riki.Prelude.{
  ℕ, zero, suc, ◌+◌, ◌-◌, ◌*◌, Bool, true, false, not, ◌&&◌, ◌||◌, List, [], ◌∷◌, ◌++◌, String, map,
  filter, any, ltb, ◌==◌, length, sort_by, if◌then◌else◌,
}

pub record Section : Type 0 where
  pub id : String
  pub priority : ℕ
  pub line : String
  pub tokens : ℕ
  pub droppable : Bool

pub record Budget : Type 0 where
  pub max_tokens : ℕ
  pub spent_tokens : ℕ

pub record Composed : Type 0 where
  pub text : List String
  pub tokens : ℕ
  pub truncated : Bool
  pub omitted : List String

abbrev pub Placed : Type 0
Placed = ℕ × Section

abbrev pub number : ℕ → List Section → List Placed
number n [] = []
number n (s ∷ ss) = (n, s) ∷ number (suc n) ss

abbrev pub contains : List ℕ → ℕ → Bool
contains gone n = any (λ g. g == n) gone

abbrev pub is_kept : List ℕ → Placed → Bool
is_kept gone p = not (contains gone p.0)

abbrev pub total_tokens : List Placed → ℕ
total_tokens [] = 0
total_tokens ((n, s) ∷ ps) = s.tokens + total_tokens ps

-- Lower priority first, and later positions first where priorities are equal.
abbrev pub drops_before : Placed → Placed → Bool
drops_before a b = ltb a.1.priority b.1.priority || (a.1.priority == b.1.priority && ltb b.0 a.0)

abbrev pub drop_order : List Placed → List Placed
drop_order placed = sort_by drops_before (filter (λ p. p.1.droppable) placed)

module _ (separator_cost : ℕ) (budget : Budget) where
  unfoldable pub cost : List Placed → List ℕ → ℕ
  cost placed gone =
      let kept = filter (is_kept gone) placed in
      total_tokens kept + (length kept - 1) * separator_cost

  -- `cost() > available`, where `available` may be negative.
  abbrev pub is_over : List Placed → List ℕ → Bool
  is_over placed gone = ltb budget.max_tokens (cost placed gone + budget.spent_tokens)

  -- The loop, over the sections that it may still drop; it returns what is gone and `omitted`.
  unfoldable pub drop_while_over :
      List Placed → List Placed → List ℕ → List String → List ℕ × List String
  drop_while_over placed [] gone omitted = (gone, omitted)
  drop_while_over placed (next ∷ droppable) gone omitted =
      let rest =
        drop_while_over placed droppable (gone ++ next.0 ∷ []) (omitted ++ next.1.id ∷ []) in
      if is_over placed gone then rest else (gone, omitted)

  unfoldable pub compose : List Section → Composed
  unfolding drop_while_over
  compose sections =
      let placed = number 0 sections in
      let (gone, omitted) = drop_while_over placed (drop_order placed) [] [] in
      record {
        text = map (λ p. p.1.line) (filter (is_kept gone) placed);
        tokens = cost placed gone;
        truncated = ltb 0 (length omitted) || is_over placed gone;
        omitted = omitted;
      }
