-- ===== src/Realtime/Window/Plans.antt =====
-- What the executor makes of a whole plan.
use riki.Prelude.{
  ℕ, ◌≡◌, refl, ap, sym, ◌∙◌, Bool, true, false, not, ◌&&◌, List, [], ◌∷◌, ◌++◌, none, some, String,
  arith, filter, any, all, append_assoc, append-nil, Bool-cases, Option-cases, inl, inr, ◌==◌,
  if◌then◌else◌,
}
use riki.Realtime.Window.{
  Window, WindowPlan, WindowSent, Applying, item_of, unbind, drop_ref, drop_refs, apply, summaries,
  announce, delete_item, planned,
}

-- The wire refuses to delete the item that a ref is bound to.
abbrev pub is_refused : (String → Bool) → List (ℕ × String) → ℕ → Bool
is_refused refuses items ref = elim (item_of items ref) [ none ↦ false | some item ↦ refuses item ]

abbrev pub is_delete : WindowSent → Bool
is_delete (delete_item item) = true
is_delete _ = false

item_of-unbind :
    (ref q : ℕ) (items : List (ℕ × String))
    → item_of (unbind ref items) q ≡ (if ref == q then none else item_of items q)
item_of-unbind ref q [] = ground arith
item_of-unbind ref q ((bound, item) ∷ items) = ground (arith, item_of-unbind ref q items)

module _ (refuses : String → Bool) where
  drop_ref-result :
      (a : Applying) (ref : ℕ)
      → let after = drop_ref refuses a ref in
        let f = is_refused refuses a.window.items ref in
        (after.result.dropped ≡ a.result.dropped ++ (if f then [] else ref ∷ []))
        × (after.result.failed ≡ a.result.failed ++ (if f then ref ∷ [] else []))
  unfolding drop_ref
  drop_ref-result a ref = ground (arith, append-nil a.result.dropped, append-nil a.result.failed)

  drop_ref-items :
      (a : Applying) (ref q : ℕ)
      → item_of (drop_ref refuses a ref).window.items q ≡ (
          if (ref == q) && not (is_refused refuses a.window.items ref)
          then none
          else item_of a.window.items q)
  unfolding drop_ref
  drop_ref-items a ref q = ground (arith, item_of-unbind ref q a.window.items)

  refused-drop_ref :
      (a : Applying) (ref q : ℕ)
      → is_refused refuses (drop_ref refuses a ref).window.items q
        ≡ is_refused refuses a.window.items q
  refused-drop_ref a ref q = ground (arith, drop_ref-items a ref q)

  -- The lists of results are the plan's refs, sorted by what the wire refused at the start.
  drop_refs-result :
      (items : List (ℕ × String)) (refs : List ℕ) (a : Applying)
      → ((q : ℕ) → is_refused refuses a.window.items q ≡ is_refused refuses items q)
      → let after = drop_refs refuses a refs in
        (after.result.dropped
          ≡ a.result.dropped ++ filter (λ r. not (is_refused refuses items r)) refs)
        × (after.result.failed ≡ a.result.failed ++ filter (is_refused refuses items) refs)
  unfolding drop_refs
  drop_refs-result items [] a h =
      (sym (append-nil a.result.dropped), sym (append-nil a.result.failed))
  drop_refs-result items (ref ∷ refs) a h =
      let next = drop_ref refuses a ref in
      let keep : ℕ → Bool = λ r. not (is_refused refuses items r) in
      let rest = drop_refs-result items refs next (λ q. refused-drop_ref a ref q ∙ h q) in
      let one = drop_ref-result a ref in
      ground (
        arith,
        rest,
        one,
        h ref,
        append_assoc a.result.dropped (ref ∷ []) (filter keep refs),
        append_assoc a.result.failed (ref ∷ []) (filter (is_refused refuses items) refs),
        append-nil a.result.dropped,
        append-nil a.result.failed,
      )

  drop_refs-items :
      (items : List (ℕ × String)) (refs : List ℕ) (a : Applying) (q : ℕ)
      → ((r : ℕ) → is_refused refuses a.window.items r ≡ is_refused refuses items r)
      → item_of (drop_refs refuses a refs).window.items q ≡ (
          if any (λ r. r == q) refs && not (is_refused refuses items q)
          then none
          else item_of a.window.items q)
  unfolding drop_refs
  drop_refs-items items [] a q h = refl
  drop_refs-items items (ref ∷ refs) a q h =
      let next = drop_ref refuses a ref in
      ground (
        arith,
        drop_refs-items items refs next q (λ r. refused-drop_ref a ref r ∙ h r),
        drop_ref-items a ref q,
        h ref,
        h q,
      )

  -- A plan is accounted for: `dropped` and `failed` are its refs in their order, parted by whether
  -- the wire refuses to delete the item bound to the ref, and afterwards a ref is bound to what it
  -- was bound to before, or to nothing if the plan drops it and the wire does not refuse.
  pub apply_accounts :
      (w : Window) (plan : WindowPlan) (q : ℕ)
      → let refused = is_refused refuses w.items in
        let (after, result) = apply refuses w plan in
        (result.dropped ≡ filter (λ r. not (refused r)) plan.drop)
        × (result.failed ≡ filter refused plan.drop)
        × (item_of after.items q
            ≡ (if any (λ r. r == q) plan.drop && not (refused q) then none else item_of w.items q))
  unfolding apply
  apply_accounts w plan q =
      let a : Applying = record {
        window = record w { sent = w.sent ++ summaries plan.replace };
        result = record { dropped = []; failed = [] };
      } in
      let (d, f) = drop_refs-result w.items plan.drop a (λ r. refl) in
      (d, f, drop_refs-items w.items plan.drop a q (λ r. refl))

  drop_refs-sends :
      (refs : List ℕ) (a : Applying)
      → (deletes : List WindowSent) × (all is_delete deletes ≡ true)
        × ((drop_refs refuses a refs).window.sent ≡ a.window.sent ++ deletes)
        × ((drop_refs refuses a refs).window.reported ≡ a.window.reported)
  unfolding drop_refs drop_ref
  drop_refs-sends [] a = ([], refl, sym (append-nil a.window.sent), refl)
  drop_refs-sends (ref ∷ refs) a =
      let next = drop_ref refuses a ref in
      let (deletes, only, eq, kept) = drop_refs-sends refs next in
      elim (Option-cases (item_of a.window.items ref)) [
        | inl e ↦ (deletes, only, ground (arith, eq, e), ground (arith, kept, e))
        | inr (item, e) ↦ elim (Bool-cases (refuses item)) [
          | inl r ↦ (deletes, only, ground (arith, eq, e, r), ground (arith, kept, e, r))
          | inr r ↦ (
            delete_item item ∷ deletes,
            only,
            ground (arith, eq, e, r, append_assoc a.window.sent (delete_item item ∷ []) deletes),
            ground (arith, kept, e, r),
          )
        ]
      ]

  -- A plan sends all its summaries before its first deletion, and then announces what it dropped;
  -- the usage that is reported does not change.
  pub apply_order :
      (w : Window) (plan : WindowPlan)
      → let (after, result) = apply refuses w plan in
        (deletes : List WindowSent) × (all is_delete deletes ≡ true)
        × (after.sent
            ≡ ((w.sent ++ summaries plan.replace) ++ deletes) ++ announce result.dropped planned)
        × (after.reported ≡ w.reported)
  unfolding apply
  apply_order w plan =
      let a : Applying = record {
        window = record w { sent = w.sent ++ summaries plan.replace };
        result = record { dropped = []; failed = [] };
      } in
      let after = drop_refs refuses a plan.drop in
      let (deletes, only, eq, kept) = drop_refs-sends plan.drop a in
      (deletes, only, ap (λ s. s ++ announce after.result.dropped planned) eq, kept)
