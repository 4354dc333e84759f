-- ===== src/World/Fusion/Steps.antt =====
-- The loop of `fuse`, one candidate at a time.
use riki.Prelude.{
  ℕ, ◌+◌, ◌≤◌, ◌<◌, ◌≡◌, ◌⊎◌, refl, ap, subst, ◌∙◌, List, [], ◌∷◌, Option, some, String, arith,
  length, length-append, Bool-cases, Option-cases, inl, inr,
}
use riki.World.Fact.{Fact}
use riki.World.Path.{FieldPath, ParsedPath, parse_path}
use riki.World.Precedence.{
  FieldClass, Refusal, PrecedenceVerdict, write, refuse, PrecedenceOptions, rank_for, class_of_path,
  class_of_parsed, can_write,
}
use riki.World.State.{read_fact, read_parsed, write_parsed}
use riki.World.State.Laws.{
  read_fact-parsed, write_fact-parsed, read-write_parsed, same_leaf, same_leaf→eq,
  write_parsed-origin,
}
use riki.World.Fusion.{
  ConfidenceGate, Candidate, Fusing, Rejection, Why, passes_gate, fuse_one, fuse_candidates, reject,
}

verdict-cases : (v : PrecedenceVerdict) → (v ≡ write) ⊎ ((r : Refusal) × (v ≡ refuse r))
verdict-cases write = inl refl
verdict-cases (refuse r) = inr (r, refl)

class_of_path-parsed :
    (path : FieldPath) (p : ParsedPath)
    → parse_path path ≡ some p
    → class_of_path path ≡ class_of_parsed p
unfolding class_of_path
class_of_path-parsed path p h = rw (h, class_of_path)

module _ {V : Type 0} (opts : PrecedenceOptions) where
  -- What a verdict to write says of the two facts.
  can_write-rank :
      (path : FieldPath) (f : Fact V) (existing : Option (Fact V)) (now : ℕ)
      → can_write opts path f existing now ≡ write
      → 0 < rank_for (class_of_path path) f.source
  unfolding can_write
  can_write-rank path f existing now h = ground arith

  can_write-recent :
      (path : FieldPath) (f e : Fact V) (now : ℕ)
      → can_write opts path f (some e) now ≡ write
      → (e.observed_at ≤ f.observed_at) ⊎ (e.observed_at + opts.gsi_shadow_window_ms ≤ now)
  unfolding can_write
  can_write-recent path f e now h = ground arith

module _ {V : Type 0} (of_hero : String → V) (opts : PrecedenceOptions)
    (gate : ConfidenceGate) where
  -- A candidate leaves the state alone and adds a rejection, or is written and counted.
  abbrev Landed : ℕ → Fusing V → Candidate V → Type 0
  Landed now x c =
      (can_write opts c.path c.fact (read_fact x.next c.path) now ≡ write)
      × (p : ParsedPath) × (parse_path c.path ≡ some p)
      × (fuse_one of_hero opts gate now x c
          ≡ record x { next = write_parsed of_hero x.next p c.fact; accepted = x.accepted + 1 })

  abbrev Rejected : ℕ → Fusing V → Candidate V → Type 0
  Rejected now x c = (why : Why) × (fuse_one of_hero opts gate now x c ≡ reject x c.path why)

  fuse_one-cases : (now : ℕ) (x : Fusing V) (c : Candidate V) → Rejected now x c ⊎ Landed now x c
  unfolding fuse_one
  fuse_one-cases now x c = elim (Bool-cases (passes_gate gate c)) [
    | inr shut ↦ inl (Why.below_threshold, ground (arith, shut))
    | inl open_ ↦
        elim (verdict-cases (can_write opts c.path c.fact (read_fact x.next c.path) now)) [
          | inr (r, v) ↦ inl (Why.refused r, ground (arith, open_, v))
          | inl v ↦ elim (Option-cases (parse_path c.path)) [
            | inl n ↦ inl (Why.unparsed, ground (arith, open_, v, n))
            | inr (p, e) ↦ inr (
              v,
              p,
              e,
              ground (arith, open_, v, e, write_fact-parsed of_hero x.next c.path p c.fact e),
            )
          ]
        ]
  ]

  fuse_one-count :
      (now : ℕ) (x : Fusing V) (c : Candidate V)
      → let y = fuse_one of_hero opts gate now x c in
        y.accepted + length y.rejections ≡ x.accepted + length x.rejections + 1
  fuse_one-count now x c = elim (fuse_one-cases now x c) [
    | inl (why, e) ↦
        let one : List Rejection = (record { field = c.path; why = why }) ∷ [] in
        rw e (omega (arith, length-append x.rejections one))
    | inr (v, p, e, eq) ↦ rw eq (omega arith)
  ]

  -- Every candidate of a batch is accounted for: it is accepted, or there is one more rejection.
  pub fuse_candidates-count :
      (now : ℕ) (x : Fusing V) (cs : List (Candidate V))
      → let y = fuse_candidates of_hero opts gate now x cs in
        y.accepted + length y.rejections ≡ x.accepted + length x.rejections + length cs
  unfolding fuse_candidates
  fuse_candidates-count now x [] = omega arith
  fuse_candidates-count now x (c ∷ cs) = omega (
    arith,
    fuse_one-count now x c,
    fuse_candidates-count now (fuse_one of_hero opts gate now x c) cs,
  )

  -- A later fact is not older, unless the earlier one had passed the shadow window.
  abbrev pub NotBefore : ℕ → Fact V → Fact V → Type 0
  NotBefore now e f =
      (e.observed_at ≤ f.observed_at) ⊎ (e.observed_at + opts.gsi_shadow_window_ms ≤ now)

  fuse_one-recent :
      (now : ℕ) (x : Fusing V) (c : Candidate V) (q : ParsedPath) (e : Fact V)
      → read_parsed x.next q ≡ some e
      → (f : Fact V) × (read_parsed (fuse_one of_hero opts gate now x c).next q ≡ some f)
        × NotBefore now e f
  fuse_one-recent now x c q e h = elim (fuse_one-cases now x c) [
    | inl (why, eq) ↦ (e, rw eq h, inl (omega arith))
    | inr (v, p, hp, eq) ↦ elim (Bool-cases (same_leaf p q)) [
      | inr other ↦ (
        e,
        rw eq (read-write_parsed of_hero x.next p q c.fact e h ∙ rw other refl),
        inl (omega arith),
      )
      | inl same_ ↦
          let there : read_fact x.next c.path ≡ some e =
            read_fact-parsed x.next c.path p hp
            ∙ ap (read_parsed x.next) (same_leaf→eq p q same_)
            ∙ h in
          (
            c.fact,
            rw eq (read-write_parsed of_hero x.next p q c.fact e h ∙ rw same_ refl),
            can_write-recent opts c.path c.fact e now (rw there at v),
          )
    ]
  ]

  pub fuse_candidates-recent :
      (now : ℕ) (x : Fusing V) (cs : List (Candidate V)) (q : ParsedPath) (e : Fact V)
      → read_parsed x.next q ≡ some e
      → (f : Fact V) × (read_parsed (fuse_candidates of_hero opts gate now x cs).next q ≡ some f)
        × NotBefore now e f
  unfolding fuse_candidates
  fuse_candidates-recent now x [] q e h = (e, h, inl (omega arith))
  fuse_candidates-recent now x (c ∷ cs) q e h =
      let (f, hf, ef) = fuse_one-recent now x c q e h in
      let (g, hg, fg) = fuse_candidates-recent now (fuse_one of_hero opts gate now x c) cs q f hf in
      (g, hg, omega (arith, ef, fg))

  fuse_one-ranked :
      (now : ℕ) (x : Fusing V) (c : Candidate V) (q : ParsedPath) (g : Fact V)
      → read_parsed (fuse_one of_hero opts gate now x c).next q ≡ some g
      → (read_parsed x.next q ≡ some g)
        ⊎ (0 < rank_for (class_of_parsed q) g.source)
        ⊎ (class_of_parsed q ≡ FieldClass.roster)
  fuse_one-ranked now x c q g h = elim (fuse_one-cases now x c) [
    | inl (why, eq) ↦ inl (rw eq at h)
    | inr (v, p, hp, eq) ↦ elim (write_parsed-origin of_hero x.next p q c.fact g (rw eq at h)) [
      | inl (gf, pq) ↦ inr (
          inl (
            rw gf (
              subst (λ cls. 0 < rank_for cls c.fact.source)
                (class_of_path-parsed c.path p hp ∙ ap class_of_parsed pq)
                (can_write-rank opts c.path c.fact (read_fact x.next c.path) now v))))
      | inr (inl old) ↦ inl old
      | inr (inr roster) ↦ inr (inr roster)
    ]
  ]

  pub fuse_candidates-ranked :
      (now : ℕ) (x : Fusing V) (cs : List (Candidate V)) (q : ParsedPath) (g : Fact V)
      → read_parsed (fuse_candidates of_hero opts gate now x cs).next q ≡ some g
      → (read_parsed x.next q ≡ some g)
        ⊎ (0 < rank_for (class_of_parsed q) g.source)
        ⊎ (class_of_parsed q ≡ FieldClass.roster)
  unfolding fuse_candidates
  fuse_candidates-ranked now x [] q g h = inl h
  fuse_candidates-ranked now x (c ∷ cs) q g h =
      elim (fuse_candidates-ranked now (fuse_one of_hero opts gate now x c) cs q g h) [
        | inl old ↦ fuse_one-ranked now x c q g old
        | inr new ↦ inr new
      ]
