-- ===== src/Realtime/Window.antt =====
-- window.ts: the executor of window plans. What is sent and announced is a list; a `send` of a
-- delete that throws is a test on the item that the wire refuses. Plan fields that the executor
-- does not read are left out.
pub mod Plans
mod Tests
use riki.Prelude.{
  ℕ, Bool, true, false, not, List, [], ◌∷◌, ◌++◌, Option, none, some, String, map, ◌==◌, filter,
  if◌then◌else◌,
}

pub data DropReason : Type 0 where
  planned api_truncation session_lost : DropReason

pub record Replacement : Type 0 where
  pub refs : List ℕ
  pub text : String

pub record WindowPlan : Type 0 where
  pub drop : List ℕ
  pub replace : List Replacement

pub record AppliedWindowPlan : Type 0 where
  pub dropped : List ℕ
  pub failed : List ℕ

pub record WindowUsage : Type 0 where
  pub reported_tokens : ℕ
  pub at : ℕ

pub data WindowSent : Type 0 where
  summary_item delete_item : String → WindowSent
  announced : List ℕ → DropReason → WindowSent

pub record Window : Type 0 where
  pub items : List (ℕ × String)
  pub reported : Option WindowUsage
  pub sent : List WindowSent

abbrev pub item_of : List (ℕ × String) → ℕ → Option String
item_of [] ref = none
item_of ((bound, item) ∷ items) ref =
    let rest = item_of items ref in if bound == ref then some item else rest

abbrev pub unbind : ℕ → List (ℕ × String) → List (ℕ × String)
unbind ref items = filter (λ b. not (b.0 == ref)) items

-- `Map.set`: a bound key keeps its place.
unfoldable pub set_item : List (ℕ × String) → ℕ → String → List (ℕ × String)
set_item [] ref item = (ref, item) ∷ []
set_item ((bound, old) ∷ items) ref item =
    let rest = set_item items ref item in
    if bound == ref then (ref, item) ∷ items else (bound, old) ∷ rest

unfoldable pub bind : Window → ℕ → String → Window
bind w ref item = record w { items = set_item w.items ref item }

unfoldable pub announce : List ℕ → DropReason → List WindowSent
announce [] reason = []
announce (ref ∷ refs) reason = announced (ref ∷ refs) reason ∷ []

unfoldable pub summaries : List Replacement → List WindowSent
summaries [] = []
summaries (r ∷ rs) = summary_item r.text ∷ summaries rs

-- The loop variables of `apply`.
pub record Applying : Type 0 where
  pub window : Window
  pub result : AppliedWindowPlan

module _ (refuses : String → Bool) where
  unfoldable pub drop_ref : Applying → ℕ → Applying
  drop_ref a ref =
      let done = record a { result = record a.result { dropped = a.result.dropped ++ ref ∷ [] } } in
      elim (item_of a.window.items ref) [
        | none ↦ done
        | some item ↦
            if refuses item
            then record a { result = record a.result { failed = a.result.failed ++ ref ∷ [] } }
            else record done {
              window = record a.window {
                items = unbind ref a.window.items;
                sent = a.window.sent ++ delete_item item ∷ [];
              };
            }
      ]

  unfoldable pub drop_refs : Applying → List ℕ → Applying
  drop_refs a [] = a
  drop_refs a (ref ∷ refs) = drop_refs (drop_ref a ref) refs

  unfoldable pub apply : Window → WindowPlan → Window × AppliedWindowPlan
  apply w plan =
      let a =
        drop_refs
          (record {
            window = record w { sent = w.sent ++ summaries plan.replace };
            result = record { dropped = []; failed = [] };
          })
          plan.drop in
      (record a.window { sent = a.window.sent ++ announce a.result.dropped planned }, a.result)

unfoldable pub note_usage : Window → ℕ → ℕ → Window
note_usage w tokens at = record w { reported = some (record { reported_tokens = tokens; at = at }) }

unfoldable pub unbind_all : List ℕ → List (ℕ × String) → List (ℕ × String)
unbind_all [] items = items
unbind_all (ref ∷ refs) items = unbind_all refs (unbind ref items)

unfoldable pub note_api_truncation : Window → List ℕ → Window
note_api_truncation w refs = record w {
  items = unbind_all refs w.items;
  sent = w.sent ++ announce refs api_truncation;
}

unfoldable pub note_session_lost : Window → Window
note_session_lost w = record w {
  items = [];
  sent = w.sent ++ announce (map (λ b. b.0) w.items) session_lost;
}
