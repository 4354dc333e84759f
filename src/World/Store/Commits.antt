-- ===== src/World/Store/Commits.antt =====
-- Commits: the version, the deltas and the ring of a store.
use riki.Prelude.{
  ℕ, zero, suc, ◌+◌, ◌≡◌, refl, ℤ, List, [], ◌∷◌, ◌++◌, Option, none, some, arith, drop,
}
use riki.World.History.{Slot, Ring, push, evict, create}
use riki.World.Store.{Rules, WorldDelta, Store, commit, apply, applied, reset, fresh_ring}

-- Each delta is of one step, starts where the one before it ended, and the last ends at `version`.
abbrev pub Chain : {C : Type 0} → List (Slot (WorldDelta C)) → ℕ → Type 0
Chain [] version = Unit
Chain (d ∷ []) version =
    (d.entry.to_version ≡ d.entry.from_version + 1) × (d.entry.to_version ≡ version)
Chain (d ∷ e ∷ slots) version =
    (d.entry.to_version ≡ d.entry.from_version + 1)
    × (e.entry.from_version ≡ d.entry.to_version)
    × Chain (e ∷ slots) version

module _ {C : Type 0} where
  Chain-drop :
      (n : ℕ) (slots : List (Slot (WorldDelta C))) (version : ℕ)
      → Chain slots version
      → Chain (drop n slots) version
  Chain-drop zero slots version h = h
  Chain-drop (suc n) [] version h = h
  Chain-drop (suc n) (d ∷ []) version h = Chain-drop n [] version tt
  Chain-drop (suc n) (d ∷ e ∷ slots) version (one, next, h) = Chain-drop n (e ∷ slots) version h

  Chain-append :
      (slots : List (Slot (WorldDelta C))) (version : ℕ) (d : Slot (WorldDelta C))
      → d.entry.from_version ≡ version
      → d.entry.to_version ≡ version + 1
      → Chain slots version
      → Chain (slots ++ d ∷ []) (version + 1)
  Chain-append [] version d e f h = (ground (arith, e, f), f)
  Chain-append (x ∷ []) version d e f (one, last) =
      (one, ground (arith, e, last), (ground (arith, e, f), f))
  Chain-append (x ∷ y ∷ slots) version d e f (one, next, h) =
      (one, next, Chain-append (y ∷ slots) version d e f h)

  Chain-push :
      (r : Ring (WorldDelta C)) (version : ℕ) (d : WorldDelta C) (at : Option ℤ) (now : ℕ)
      → d.from_version ≡ version
      → d.to_version ≡ version + 1
      → Chain r.slots version
      → Chain (push r d at now).slots (version + 1)
  unfolding push evict
  Chain-push r version d at now e f h =
      Chain-drop _ (r.slots ++ _ ∷ []) (version + 1) (Chain-append r.slots version _ e f h)

fresh-Chain :
    (C : Type 0) (window_seconds version : ℕ)
    → Chain (fresh_ring {C = C} window_seconds).slots version
unfolding create
fresh-Chain C window_seconds version = tt

module _ {W O K C : Type 0} (rules : Rules W O K C) where
  -- The deltas of a store follow each other, up to its version.
  abbrev pub Chained : Store W C → Type 0
  Chained s = Chain s.history.slots s.held.version

  commit-Chained :
      (s : Store W C) (next : W) (history : Ring (WorldDelta C)) (now : ℕ)
      → Chain history.slots s.held.version
      → Chained (commit rules s next history now).0
  unfolding commit
  commit-Chained s next history now h = Chain-push history s.held.version _ _ now refl refl h

  applied-Chained :
      (s : Store W C) (now : ℕ) (outcome : Option W × ℕ × ℕ)
      → Chained s
      → Chained (applied rules s now outcome).0
  applied-Chained s now (none, accepted, rejected) h = h
  applied-Chained s now (some next, accepted, rejected) h = commit-Chained s next s.history now h

  -- Whatever an observation does, and after a reset, the deltas that the store holds follow each
  -- other without a gap, each of one version, up to the version of the store.
  pub writes-Chained :
      (window_seconds : ℕ) (s : Store W C) (o : O) (now : ℕ)
      → Chained s
      → Chained (apply rules s o now).0 × Chained (reset rules window_seconds s now)
  unfolding apply reset
  writes-Chained window_seconds s o now h = (
    applied-Chained s now (rules.fuse s.held.facts o now) h,
    commit-Chained s (rules.empty_state now) (fresh_ring window_seconds) now
        (fresh-Chain C window_seconds s.held.version),
  )
