-- ===== src/World/Fusion.antt =====
-- fusion/reducer.ts and fusion/confidence.ts: how the candidates that an observation implies are
-- fused into the state. The readers that make the candidates are outside this file.
pub mod Steps
pub mod Laws
mod Tests
use riki.Prelude.{
  ℕ, suc, ◌+◌, Bool, true, false, not, ◌&&◌, List, [], ◌∷◌, ◌++◌, Option, none, some, String, ℤ,
  leb, ◌==◌, if◌then◌else◌,
}
use riki.World.Fact.{Fact, FactSource, cv, Timestamps}
use riki.World.History
use riki.World.Path.{FieldPath, parse_path}
use riki.World.Precedence.{Refusal, PrecedenceVerdict, write, refuse, PrecedenceOptions, can_write}
use riki.World.State.{WorldState, ChatLine, read_fact, write_fact}

-- The gate's thresholds are a function, `none` where the map has no entry.
pub record ConfidenceGate : Type 0 where
  pub thresholds : String → Option ℕ
  pub fallback : ℕ

abbrev pub default_confidence_threshold : ℕ
default_confidence_threshold = 500_000

unfoldable pub threshold_for : ConfidenceGate → String → ℕ
threshold_for gate detector = elim (gate.thresholds detector) [ none ↦ gate.fallback | some t ↦ t ]

abbrev pub is_cv : FactSource → Bool
is_cv cv = true
is_cv _ = false

pub data Why : Type 0 where
  refused : Refusal → Why
  below_threshold unparsed : Why

pub record Rejection : Type 0 where
  pub field : FieldPath
  pub why : Why

pub record Candidate (V : Type 0) : Type 0 where
  pub path : FieldPath
  pub fact : Fact V
  pub detector : Option String

-- The variables of the loop of `fuse`.
pub record Fusing (V : Type 0) : Type 0 where
  pub next : WorldState V
  pub rejections : List Rejection
  pub accepted : ℕ

pub record FusionOutcome (V : Type 0) : Type 0 where
  pub state : WorldState V
  pub rejections : List Rejection
  pub accepted : ℕ

module _ {V : Type 0} where
  unfoldable pub admit : ConfidenceGate → Fact V → String → Bool
  unfolding threshold_for
  admit gate fact detector =
      if not (is_cv fact.source) then true else leb (threshold_for gate detector) fact.confidence

  unfoldable pub passes_gate : ConfidenceGate → Candidate V → Bool
  passes_gate gate c = elim c.detector [ none ↦ true | some detector ↦ admit gate c.fact detector ]

  abbrev pub reject : Fusing V → FieldPath → Why → Fusing V
  reject x field why = record x {
    rejections = x.rejections ++ (record { field = field; why = why }) ∷ [];
  }

push_chat : History.Ring ChatLine → List ChatLine → Option ℤ → ℕ → History.Ring ChatLine
push_chat ring [] clock now = ring
push_chat ring (line ∷ lines) clock now =
    push_chat (History.push ring line clock now) lines clock now

abbrev pub is_none {ℓ} : {A : Type ℓ} → List A → Bool
is_none [] = true
is_none (x ∷ xs) = false

module _ {V : Type 0} (of_hero : String → V) (opts : PrecedenceOptions)
    (gate : ConfidenceGate) where
  -- One candidate. `writeFact` returns its input exactly for a path that it does not recognise.
  unfoldable pub fuse_one : ℕ → Fusing V → Candidate V → Fusing V
  fuse_one now x c =
      if not (passes_gate gate c)
      then reject x c.path below_threshold
      else elim (can_write opts c.path c.fact (read_fact x.next c.path) now) [
        | refuse reason ↦ reject x c.path (refused reason)
        | write ↦ elim (parse_path c.path) [
          | none ↦ reject x c.path unparsed
          | some parsed ↦ record x {
            next = write_fact of_hero x.next c.path c.fact;
            accepted = x.accepted + 1;
          }
        ]
      ]

  unfoldable pub fuse_candidates : ℕ → Fusing V → List (Candidate V) → Fusing V
  fuse_candidates now x [] = x
  fuse_candidates now x (c ∷ cs) = fuse_candidates now (fuse_one now x c) cs

  -- `fuse`, from what the readers made of the observation on: the candidates, the chat lines, and
  -- the rejections of the reader itself. The state is a new one exactly if a candidate landed.
  unfoldable pub fuse :
      WorldState V
      → List (Candidate V)
      → List ChatLine
      → List Rejection
      → Timestamps
      → ℕ
      → FusionOutcome V
  unfolding fuse_candidates push_chat
  fuse state candidates chat rejections at now =
      let x =
        fuse_candidates now (record { next = state; rejections = rejections; accepted = 0 })
          candidates in
      let ring = push_chat x.next.chat chat at.at_game_clock now in
      if x.accepted == 0 && is_none chat
      then record { state = state; rejections = x.rejections; accepted = x.accepted }
      else record {
        state = record x.next { chat = ring; last_updated_at = now };
        rejections = x.rejections;
        accepted = x.accepted;
      }
