-- ===== src/World/History.antt =====
-- history/ring.ts: the bounded history. The closure's `slots` are a field beside the two bounds.
-- Match clocks are integers, and `null` where the match has none; wall times are numbers.
pub mod Bounds
mod Tests
use riki.Prelude.{
  ℕ, zero, suc, ◌+◌, ◌-◌, ◌*◌, Bool, true, false, List, [], ◌∷◌, ◌++◌, Option, none, some, map, ℤ,
  ltb, leb_ℤ, gap_exceeds, length, drop, filter, if◌then◌else◌,
}

pub record Slot {ℓ} (A : Type ℓ) : Type ℓ where
  pub entry : A
  pub at : Option ℤ
  pub now : ℕ

pub record Ring {ℓ} (A : Type ℓ) : Type ℓ where
  pub window_seconds : ℕ
  pub max_entries : ℕ
  pub slots : List (Slot A)

-- Both clocks: match time where both ends have one, wall time otherwise.
abbrev pub too_old_at : ℕ → Option ℤ → ℕ → Option ℤ → ℕ → Bool
too_old_at window (some newest_at) now (some at) slot_now = gap_exceeds newest_at at window
too_old_at window _ now _ slot_now = ltb (slot_now + window * 1000) now

abbrev pub at_or_after : ℤ → Option ℤ → Bool
at_or_after clock none = false
at_or_after clock (some at) = leb_ℤ clock at

module _ {ℓ} {A : Type ℓ} where
  unfoldable pub create : ℕ → ℕ → Ring A
  create window_seconds max_entries = record {
    window_seconds = window_seconds;
    max_entries = max_entries;
    slots = [];
  }

  abbrev pub too_old : ℕ → Option ℤ → ℕ → Slot A → Bool
  too_old window newest_at now slot = too_old_at window newest_at now slot.at slot.now

  -- The loop of `evict`: how many slots at the front are too old.
  unfoldable pub first_kept : ℕ → Option ℤ → ℕ → List (Slot A) → ℕ
  first_kept window newest_at now [] = 0
  first_kept window newest_at now (slot ∷ slots) =
      let rest = first_kept window newest_at now slots in
      if too_old window newest_at now slot then suc rest else 0

  unfoldable pub evict : Ring A → Option ℤ → ℕ → Ring A
  evict r newest_at now =
      let kept = first_kept r.window_seconds newest_at now r.slots in
      let overflow = length r.slots - kept - r.max_entries in
      record r { slots = drop (kept + overflow) r.slots }

  unfoldable pub push : Ring A → A → Option ℤ → ℕ → Ring A
  unfolding evict
  push r entry at now =
      evict (record r { slots = r.slots ++ (record { entry = entry; at = at; now = now }) ∷ [] }) at
        now

  unfoldable pub since : Ring A → ℤ → List A
  since r clock = map (λ slot. slot.entry) (filter (λ slot. at_or_after clock slot.at) r.slots)

  unfoldable pub last : Ring A → ℕ → List A
  last r zero = []
  last r n = map (λ slot. slot.entry) (drop (length r.slots - n) r.slots)

  unfoldable pub size : Ring A → ℕ
  size r = length r.slots
