-- ===== src/Realtime/Window/Tests.antt =====
-- Window plans on concrete windows.
use riki.Prelude.{
  ◌≡◌, refl, Bool, true, not, ◌&&◌, List, [], ◌∷◌, ◌++◌, none, String, filter, any, all, ◌==◌,
  if◌then◌else◌,
}
use text.Mathlib.Text.{◌==◌ as str_eq}
use riki.Realtime.Window.{
  Window, WindowPlan, WindowSent, summary_item, delete_item, announced, planned, api_truncation,
  session_lost, item_of, bind, set_item, drop_ref, drop_refs, apply, summaries, announce,
  note_api_truncation, unbind_all, note_session_lost,
}
use riki.Realtime.Window.Plans.{is_refused, is_delete, apply_accounts, apply_order}

abbrev refuses : String → Bool
refuses item = str_eq item "stuck"

abbrev empty : Window
empty = record { items = []; reported = none; sent = [] }

abbrev bound : Window
bound = record empty { items = (1, "a") ∷ (2, "stuck") ∷ (3, "c") ∷ [] }

abbrev plan : WindowPlan
plan = record {
  drop = 1 ∷ 2 ∷ 9 ∷ [];
  replace = (record { refs = 1 ∷ 2 ∷ []; text = "Early game." }) ∷ [];
}

applied : (apply refuses bound plan).0 ≡ (record {
  items = (2, "stuck") ∷ (3, "c") ∷ [];
  reported = none;
  sent = summary_item "Early game." ∷ delete_item "a" ∷ announced (1 ∷ 9 ∷ []) planned ∷ [];
})
unfolding apply drop_refs drop_ref summaries announce
applied = refl

rebound : (bind bound 2 "b").items ≡ (1, "a") ∷ (2, "b") ∷ (3, "c") ∷ []
unfolding bind set_item
rebound = refl

cleared :
    (note_session_lost (note_api_truncation bound (3 ∷ []))).sent
    ≡ announced (3 ∷ []) api_truncation ∷ announced (1 ∷ 2 ∷ []) session_lost ∷ []
unfolding note_session_lost note_api_truncation announce unbind_all
cleared = refl

apply_accounts_example :
    ((apply refuses bound plan).1.dropped
      ≡ filter (λ r. not (is_refused refuses bound.items r)) plan.drop)
    × ((apply refuses bound plan).1.failed ≡ filter (is_refused refuses bound.items) plan.drop)
    × (item_of (apply refuses bound plan).0.items 1 ≡ (
        if any (λ r. r == 1) plan.drop && not (is_refused refuses bound.items 1)
        then none
        else item_of bound.items 1))
apply_accounts_example = apply_accounts refuses bound plan 1

apply_order_example :
    (deletes : List WindowSent) × (all is_delete deletes ≡ true)
    × ((apply refuses bound plan).0.sent
        ≡ ((bound.sent ++ summaries plan.replace) ++ deletes)
          ++ announce (apply refuses bound plan).1.dropped planned)
    × ((apply refuses bound plan).0.reported ≡ bound.reported)
apply_order_example = apply_order refuses bound plan
