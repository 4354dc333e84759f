-- ===== src/World/Fusion/Laws.antt =====
-- The state that a batch of candidates leaves behind, and its account of them.
use riki.Prelude.{ℕ, ◌+◌, ◌≤◌, ◌<◌, ◌≡◌, ◌⊎◌, ap, ◌∙◌, List, some, String, arith, length, inl, inr}
use riki.World.Fact.{Fact, Timestamps}
use riki.World.Path.{ParsedPath}
use riki.World.Precedence.{FieldClass, PrecedenceOptions, rank_for, class_of_parsed}
use riki.World.State.{WorldState, ChatLine, read_parsed}
use riki.World.Fusion.{ConfidenceGate, Candidate, Fusing, Rejection, fuse_candidates, fuse}
use riki.World.Fusion.Steps.{fuse_candidates-count, fuse_candidates-recent, fuse_candidates-ranked}

module _ {V : Type 0} (of_hero : String → V) (opts : PrecedenceOptions)
    (gate : ConfidenceGate) where
  fused_state-reads :
      (state : WorldState V) (candidates : List (Candidate V)) (chat : List ChatLine)
      (rejections : List Rejection) (at : Timestamps) (now : ℕ) (q : ParsedPath)
      → let x =
          fuse_candidates of_hero opts gate now
            (record { next = state; rejections = rejections; accepted = 0 })
            candidates in
        let out = fuse of_hero opts gate state candidates chat rejections at now in
        (out.state ≡ state) ⊎ (read_parsed out.state q ≡ read_parsed x.next q)
  unfolding fuse
  fused_state-reads state candidates chat rejections at now (ParsedPath.meta k) = ground arith
  fused_state-reads state candidates chat rejections at now q = ground arith

  -- Fusing an observation never takes a leaf back in time, unless its fact had been silent for the
  -- shadow window: a leaf that has a fact still has one, and that is not older, or the old one was
  -- observed at least the window before `now`. This holds however many candidates compete for it.
  pub fuse_recent :
      (state : WorldState V) (candidates : List (Candidate V)) (chat : List ChatLine)
      (rejections : List Rejection) (at : Timestamps) (now : ℕ) (q : ParsedPath) (e : Fact V)
      → read_parsed state q ≡ some e
      → (f : Fact V) × (read_parsed
            (fuse of_hero opts gate state candidates chat rejections at now).state
            q
          ≡ some f)
        × ((e.observed_at ≤ f.observed_at) ⊎ (e.observed_at + opts.gsi_shadow_window_ms ≤ now))
  fuse_recent state candidates chat rejections at now q e h =
      elim (fused_state-reads state candidates chat rejections at now q) [
        | inl same_ ↦ (e, ap (λ s. read_parsed s q) same_ ∙ h, inl (omega arith))
        | inr reads ↦
            let (f, hf, ef) =
              fuse_candidates-recent of_hero opts gate now
                (record { next = state; rejections = rejections; accepted = 0 }) candidates q e h in
            (f, reads ∙ hf, ef)
      ]

  -- A source writes only where the matrix has a rank for it: a fact that is in a leaf after fusing
  -- an observation was there before, or its source has a rank in the leaf's class, or the leaf is a
  -- hero's identity.
  pub fuse_ranked :
      (state : WorldState V) (candidates : List (Candidate V)) (chat : List ChatLine)
      (rejections : List Rejection) (at : Timestamps) (now : ℕ) (q : ParsedPath) (g : Fact V)
      → read_parsed (fuse of_hero opts gate state candidates chat rejections at now).state q
        ≡ some g
      → (read_parsed state q ≡ some g)
        ⊎ (0 < rank_for (class_of_parsed q) g.source)
        ⊎ (class_of_parsed q ≡ FieldClass.roster)
  fuse_ranked state candidates chat rejections at now q g h =
      elim (fused_state-reads state candidates chat rejections at now q) [
        | inl same_ ↦ inl (rw same_ at h)
        | inr reads ↦
            fuse_candidates-ranked of_hero opts gate now
              (record { next = state; rejections = rejections; accepted = 0 }) candidates q g
              (rw reads at h)
      ]

  -- Every candidate is accounted for, whatever the chat: those that landed and the rejections
  -- together are the rejections of the reader and the candidates. And an observation of which none
  -- landed, with no chat, leaves the state as it was.
  pub fuse_accounts :
      (state : WorldState V) (candidates : List (Candidate V)) (chat : List ChatLine)
      (rejections : List Rejection) (at : Timestamps) (now : ℕ)
      → let out = fuse of_hero opts gate state candidates chat rejections at now in
        (out.accepted + length out.rejections ≡ length rejections + length candidates)
        × ((out.state ≡ state) ⊎ (0 < out.accepted) ⊎ (0 < length chat))
  unfolding fuse
  fuse_accounts state candidates chat rejections at now =
      let x : Fusing V = record { next = state; rejections = rejections; accepted = 0 } in
      ground (arith, fuse_candidates-count of_hero opts gate now x candidates)
