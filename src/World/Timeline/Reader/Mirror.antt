-- ===== src/World/Timeline/Reader/Mirror.antt =====
-- The replay of `reconstruct` against the store's own `apply`.
use riki.Prelude.{ℕ, ◌+◌, ◌≡◌, refl, ap, List, [], ◌∷◌, Option, none, some}
use riki.World.Record.{Line, Body, header, observation, keyframe}
use riki.World.Store.{Rules, Store, apply, applied, commit}
use riki.World.Timeline.Reader.{Replaying, replay, replay_body, fused_into}

module _ {W O K C : Type 0} (rules : Rules W O K C) where
  abbrev stored_body : Store W C → ℕ → Body O K → Store W C
  stored_body s now (header match_id started interval) = s
  stored_body s now (observation o) = (apply rules s o now).0
  stored_body s now (keyframe version reason state) = s

  -- The store that is given the observations of some lines.
  abbrev pub stored : ℕ → Store W C → List (Line O K) → Store W C
  stored start s [] = s
  stored start s (line ∷ lines) = stored start (stored_body s (start + line.at_ms) line.body) lines

  -- The replay and the store hold the same.
  record Same (r : Replaying W C) (s : Store W C) : Type 0 where
    pub same_held : r.held ≡ s.held
    pub same_history : r.history ≡ s.history

  Same-fused :
      (r : Replaying W C) (s : Store W C) (now : ℕ) (outcome : Option W × ℕ × ℕ)
      → Same r s
      → Same (fused_into rules r now outcome) (applied rules s now outcome).0
  unfolding commit
  Same-fused r s now (none, accepted, rejected) same_ = record {
    same_held = same_.same_held;
    same_history = same_.same_history;
  }
  Same-fused r s now (some next, accepted, rejected) same_ = record {
    same_held = ap (λ h. record { facts = next; version = h.version + 1 }) same_.same_held;
    same_history = rw (same_.same_held, same_.same_history) refl;
  }

  -- What one line does to the store and to the replay.
  Same-line :
      (r : Replaying W C) (s : Store W C) (now : ℕ) (body : Body O K)
      → Same r s
      → Same (replay_body rules r now body) (stored_body s now body)
  unfolding apply
  Same-line r s now (header match_id started interval) same_ = same_
  Same-line r s now (observation o) same_ =
      let facts = ap (λ h. rules.fuse h.facts o now) same_.same_held in
      rw facts (Same-fused r s now (rules.fuse s.held.facts o now) same_)
  Same-line r s now (keyframe version reason state) same_ = same_

  -- Started with the facts, version and deltas of a store, the replay ends with those that the store
  -- has once the observations of the same lines were applied to it.
  pub replay-apply :
      (start : ℕ) (r : Replaying W C) (s : Store W C) (lines : List (Line O K))
      → r.held ≡ s.held
      → r.history ≡ s.history
      → ((replay rules start r lines).held ≡ (stored start s lines).held)
        × ((replay rules start r lines).history ≡ (stored start s lines).history)
  unfolding replay
  replay-apply start r s [] h k = (h, k)
  replay-apply start r s (line ∷ lines) h k =
      let next =
        Same-line r s (start + line.at_ms) line.body (record { same_held = h; same_history = k }) in
      replay-apply start (replay_body rules r (start + line.at_ms) line.body)
        (stored_body s (start + line.at_ms) line.body) lines next.same_held next.same_history
