-- ===== src/World/History/Bounds.antt =====
-- How many entries a history keeps, and which.
use riki.Prelude.{
  ℕ, ◌+◌, ◌-◌, ◌≤◌, ◌<◌, ◌≡◌, refl, ap, ◌∙◌, Bool, false, not, List, [], ◌∷◌, ◌++◌, Option, none,
  some, map, ℤ, arith, length, length-append, length-drop, drop, drop-append_last, filter,
  filter-append, if◌then◌else◌, Bool-cases, inl, inr,
}
use riki.World.History.{Slot, Ring, too_old, too_old_at, first_kept, push, last, size}

-- A slot is not too old at the very time it was recorded.
newest-fresh : (window : ℕ) (at : Option ℤ) (now : ℕ) → too_old_at window at now at now ≡ false
newest-fresh window none now = ground arith
newest-fresh window (some a) now = ground arith

module _ {ℓ} {A : Type ℓ} where
  first_kept-le :
      (window : ℕ) (at : Option ℤ) (now : ℕ) (slots : List (Slot A))
      → first_kept window at now slots ≤ length slots
  unfolding first_kept
  first_kept-le window at now [] = omega arith
  first_kept-le window at now (s ∷ slots) = ground (arith, first_kept-le window at now slots)

  first_kept-newest :
      (window : ℕ) (at : Option ℤ) (now : ℕ) (e : A) (slots : List (Slot A))
      → first_kept window at now (slots ++ (record { entry = e; at = at; now = now }) ∷ [])
        ≤ length slots
  unfolding first_kept
  first_kept-newest window at now e [] = ground (arith, newest-fresh window at now)
  first_kept-newest window at now e (s ∷ slots) =
      ground (arith, first_kept-newest window at now e slots)

  drop_all : (xs : List A) → drop (length xs) xs ≡ []
  drop_all [] = refl
  drop_all (x ∷ xs) = drop_all xs

  drop_to_last : (xs : List A) (x : A) → drop (length xs) (xs ++ x ∷ []) ≡ x ∷ []
  drop_to_last xs x =
      drop-append_last (length xs) xs x (omega arith) ∙ ap (λ ys. ys ++ x ∷ []) (drop_all xs)

module _ {ℓ} {A : Type ℓ} where
  -- How many slots a push cuts off, of those that were there.
  cut : Ring A → A → Option ℤ → ℕ → ℕ
  cut r entry at now =
      let slots = r.slots ++ (record { entry = entry; at = at; now = now }) ∷ [] in
      let kept = first_kept r.window_seconds at now slots in
      kept + (length slots - kept - r.max_entries)

  cut-le :
      (r : Ring A) (entry : A) (at : Option ℤ) (now : ℕ)
      → 0 < r.max_entries
      → (cut r entry at now ≤ length r.slots)
        × (length r.slots + 1 ≤ cut r entry at now + r.max_entries)
  unfolding cut
  cut-le r entry at now h =
      let slot : Slot A = record { entry = entry; at = at; now = now } in
      omega (
        arith,
        length-append r.slots (slot ∷ []),
        first_kept-newest r.window_seconds at now entry r.slots,
      )

  slots-push :
      (r : Ring A) (entry : A) (at : Option ℤ) (now : ℕ)
      → 0 < r.max_entries
      → (push r entry at now).slots
        ≡ drop (cut r entry at now) r.slots ++ (record { entry = entry; at = at; now = now }) ∷ []
  unfolding push cut
  slots-push r entry at now h =
      drop-append_last (cut r entry at now) r.slots _ (cut-le r entry at now h).0

  -- If the cap is not 0, then after a push the history holds at most `max_entries` entries,
  -- whatever the clocks say, and the entry that was pushed is the last of them.
  pub push_bounded :
      (r : Ring A) (entry : A) (at : Option ℤ) (now : ℕ)
      → 0 < r.max_entries
      → (size (push r entry at now) ≤ r.max_entries) × (last (push r entry at now) 1 ≡ entry ∷ [])
  unfolding size last
  push_bounded r entry at now h =
      let slot : Slot A = record { entry = entry; at = at; now = now } in
      let front = drop (cut r entry at now) r.slots in
      let long : length (push r entry at now).slots ≡ length front + 1 =
        ap length (slots-push r entry at now h) ∙ length-append front (slot ∷ []) in
      (
        omega (arith, long, length-drop (cut r entry at now) r.slots, cut-le r entry at now h),
        let at_last : length (push r entry at now).slots - 1 ≡ length front = omega (arith, long) in
            ap (λ n. map (λ s. s.entry) (drop n (push r entry at now).slots)) at_last
            ∙ ap (λ ss. map (λ s. s.entry) (drop (length front) ss)) (slots-push r entry at now h)
            ∙ ap (map (λ s. s.entry)) (drop_to_last front slot),
      )

  abbrev pub is_fresh : ℕ → Option ℤ → ℕ → Slot A → Bool
  is_fresh window at now s = not (too_old window at now s)

  fresh-first_kept :
      (window : ℕ) (at : Option ℤ) (now : ℕ) (slots : List (Slot A))
      → filter (is_fresh window at now) (drop (first_kept window at now slots) slots)
        ≡ filter (is_fresh window at now) slots
  unfolding first_kept
  fresh-first_kept window at now [] = refl
  fresh-first_kept window at now (s ∷ slots) = elim (Bool-cases (too_old window at now s)) [
    | inl old ↦ rw (old, first_kept) (fresh-first_kept window at now slots)
    | inr new ↦ ground (arith, new)
  ]

  -- Where the cap does not bind, a push loses no entry that is in the window at its time: the slots
  -- that are not too old are those that there were, with the new one behind them.
  pub push_keeps_fresh :
      (r : Ring A) (entry : A) (at : Option ℤ) (now : ℕ)
      → length r.slots < r.max_entries
      → filter (is_fresh r.window_seconds at now) (push r entry at now).slots
        ≡ filter (is_fresh r.window_seconds at now) r.slots
          ++ (record { entry = entry; at = at; now = now }) ∷ []
  unfolding push
  push_keeps_fresh r entry at now h =
      let slot : Slot A = record { entry = entry; at = at; now = now } in
      let slots = r.slots ++ slot ∷ [] in
      let fresh = is_fresh r.window_seconds at now in
      let kept = first_kept r.window_seconds at now slots in
      let no_overflow : kept + (length slots - kept - r.max_entries) ≡ kept =
        omega (arith, length-append r.slots (slot ∷ [])) in
      ap (λ n. filter fresh (drop n slots)) no_overflow
      ∙ fresh-first_kept r.window_seconds at now slots
      ∙ filter-append fresh r.slots (slot ∷ [])
      ∙ ap (λ b. filter fresh r.slots ++ (if not b then slot ∷ [] else []))
          (newest-fresh r.window_seconds at now)
