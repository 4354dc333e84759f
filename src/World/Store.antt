-- ===== src/World/Store.antt =====
-- store.ts: the one writer of the world model. The facts are a type `W`, and what the store calls on
-- them is a record of operations, since they have files of their own. Listeners get what `commit`
-- returns.
pub mod Commits
mod Tests
use riki.Prelude.{ℕ, ◌+◌, Bool, true, false, List, Option, none, some, String, ℤ}
use riki.World.History.{Ring, create, push, since}

-- The facts and their version.
pub record Held (W : Type 0) : Type 0 where
  pub facts : W
  pub version : ℕ

-- `fuse` gives no state where it returns the one it got, with the numbers of candidates that it
-- accepted and refused; `save` and `restore` are those of record/keyframe.ts, and `restore` also
-- names the leaves that it skipped.
pub record Rules (W O K C : Type 0) : Type 0 where
  pub fuse : W → O → ℕ → Option W × ℕ × ℕ
  pub changes : W → W → C
  pub clock_of : W → Option ℤ
  pub empty_state : ℕ → W
  pub save : Held W → K
  pub restore : K → Held W × List String

pub record WorldDelta (C : Type 0) : Type 0 where
  pub from_version : ℕ
  pub to_version : ℕ
  pub at_game_clock : Option ℤ
  pub changes : C

pub record Store (W C : Type 0) : Type 0 where
  pub held : Held W
  pub history : Ring (WorldDelta C)
  pub paused : Bool

pub record ApplyResult : Type 0 where
  pub changed : Bool
  pub version : ℕ
  pub accepted : ℕ
  pub rejected : ℕ

abbrev pub default_history_max_entries : ℕ
default_history_max_entries = 2000

abbrev pub fresh_ring : {C : Type 0} → ℕ → Ring (WorldDelta C)
fresh_ring window_seconds = create window_seconds default_history_max_entries

module _ {W O K C : Type 0} (rules : Rules W O K C) where
  -- `DeltaComputer.compute`
  abbrev pub compute : Held W → Held W → WorldDelta C
  compute before after = record {
    from_version = before.version;
    to_version = after.version;
    at_game_clock = rules.clock_of after.facts;
    changes = rules.changes before.facts after.facts;
  }

  unfoldable pub create_store : ℕ → Store W C
  create_store window_seconds = record {
    held = record { facts = rules.empty_state 0; version = 0 };
    history = fresh_ring window_seconds;
    paused = false;
  }

  -- `history` is the ring of the state that is committed.
  unfoldable pub commit : Store W C → W → Ring (WorldDelta C) → ℕ → Store W C × WorldDelta C
  commit s next history now =
      let versioned : Held W = record { facts = next; version = s.held.version + 1 } in
      let delta = compute s.held versioned in
      (record s { held = versioned; history = push history delta delta.at_game_clock now }, delta)

  abbrev pub applied : Store W C → ℕ → Option W × ℕ × ℕ → Store W C × ApplyResult
  applied s now (none, accepted, rejected) = (
    s,
    record { changed = false; version = s.held.version; accepted = accepted; rejected = rejected },
  )
  applied s now (some next, accepted, rejected) =
      let (s', delta) = commit s next s.history now in
      (
        s',
        record {
          changed = true;
          version = s'.held.version;
          accepted = accepted;
          rejected = rejected;
        },
      )

  unfoldable pub apply : Store W C → O → ℕ → Store W C × ApplyResult
  apply s o now = applied s now (rules.fuse s.held.facts o now)

  unfoldable pub reset : ℕ → Store W C → ℕ → Store W C
  unfolding commit
  reset window_seconds s now = (commit s (rules.empty_state now) (fresh_ring window_seconds) now).0

unfoldable pub set_paused : {W C : Type 0} → Store W C → Bool → Store W C
set_paused s next = record s { paused = next }

-- The store's own reading of its ring, from a match clock on.
unfoldable pub history_since : {W C : Type 0} → Store W C → ℤ → List (WorldDelta C)
history_since s clock = since s.history clock
