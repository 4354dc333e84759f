-- ===== src/World/Record.antt =====
-- record/format.ts: the lines of a recording. `O` is what a line keeps of an observation, and `K` is
-- the serialised state of a keyframe.
use riki.Prelude.{ℕ, Option, ℤ, String}

pub data Body (O K : Type 0) : Type 0 where
  header : String → ℕ → ℕ → Body O K
  observation : O → Body O K
  keyframe : ℕ → String → K → Body O K

-- `at_ms` counts from the start of the recording; `clock` is the match clock, `null` before the horn.
pub record Line (O K : Type 0) : Type 0 where
  pub at_ms : ℕ
  pub clock : Option ℤ
  pub body : Body O K
