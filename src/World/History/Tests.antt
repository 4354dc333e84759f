-- ===== src/World/History/Tests.antt =====
-- Histories at concrete sizes.
use riki.Prelude.{ℕ, ◌≤◌, ◌≡◌, refl, [], ◌∷◌, ◌++◌, some, pos, negsuc, arith, filter}
use riki.World.History.{Ring, push, since, last, size, first_kept}
use riki.World.History.Bounds.{push_bounded, is_fresh, push_keeps_fresh}

-- A window of five seconds with two slots, the first before the horn.
abbrev short : Ring ℕ
short = record {
  window_seconds = 5;
  max_entries = 3;
  slots =
      (record { entry = 1; at = some (negsuc 2); now = 1_000 })
      ∷ (record { entry = 2; at = some (pos 4); now = 8_000 })
      ∷ [];
}

since_zero : since (push short 3 (some (pos 6)) 10_000) (pos 0) ≡ 2 ∷ 3 ∷ []
unfolding since push first_kept
since_zero = refl

-- A pause: the wall clock runs on, the match clock stands still, and nothing is lost.
paused : size (push short 3 (some (negsuc 0)) 900_000) ≡ 3
unfolding size push first_kept
paused = refl

push_bounded_example :
    (size (push short 3 (some (pos 6)) 10_000) ≤ 3)
    × (last (push short 3 (some (pos 6)) 10_000) 1 ≡ 3 ∷ [])
push_bounded_example = push_bounded short 3 (some (pos 6)) 10_000 (omega arith)

push_keeps_fresh_example :
    filter (is_fresh 5 (some (pos 6)) 10_000) (push short 3 (some (pos 6)) 10_000).slots
    ≡ filter (is_fresh 5 (some (pos 6)) 10_000) short.slots
      ++ (record { entry = 3; at = some (pos 6); now = 10_000 }) ∷ []
push_keeps_fresh_example = push_keeps_fresh short 3 (some (pos 6)) 10_000 (omega arith)
