-- ===== src/World/Staleness/Lookup.antt =====
-- Which policy a field gets from a map of patterns, and what the cache changes.
use text.Mathlib.TextEquality.{eq_iff}
use riki.Prelude.{
  ℕ, ◌≤◌, ◌≡◌, ◌⊎◌, inl, inr, refl, ap, sym, subst, ◌∙◌, true, List, [], ◌∷◌, none, some, arith,
  leb, map, Bool-cases, Option-cases,
}
use riki.World.Path.{FieldPath}
use riki.World.Staleness.{
  AgePolicy, Policies, matches, specificity, insert, sort, find, resolve, same_path, cached,
  policy_for,
}

abbrev pub Row : Type 0
Row = FieldPath × AgePolicy

abbrev pub In : Row → Policies → Type 0
In p [] = ⊥
In p (q ∷ qs) = (p ≡ q) ⊎ In p qs

In-insert : (x p : Row) (qs : Policies) → (x ≡ p) ⊎ In x qs → In x (insert p qs)
unfolding insert
In-insert x p [] (inl e) = inl e
In-insert x p [] (inr i) = absurd i
In-insert x p (q ∷ qs) h = elim (Bool-cases (leb (specificity q.0) (specificity p.0))) [
  | inl t ↦ rw t h
  | inr t ↦ rw t (elim h [
    | inl e ↦ inr (In-insert x p qs (inl e))
    | inr (inl e) ↦ inl e
    | inr (inr i) ↦ inr (In-insert x p qs (inr i))
  ])
]

In-sort : (x : Row) (ps : Policies) → In x ps → In x (sort ps)
unfolding sort
In-sort x [] i = i
In-sort x (p ∷ ps) (inl e) = In-insert x p (sort ps) (inl e)
In-sort x (p ∷ ps) (inr i) = In-insert x p (sort ps) (inr (In-sort x ps i))

insert-In : (x p : Row) (qs : Policies) → In x (insert p qs) → (x ≡ p) ⊎ In x qs
unfolding insert
insert-In x p [] h = h
insert-In x p (q ∷ qs) h = elim (Bool-cases (leb (specificity q.0) (specificity p.0))) [
  | inl t ↦ rw t at h
  | inr t ↦
      let k : (x ≡ q) ⊎ In x (insert p qs) = rw t at h in
      elim k [
        | inl e ↦ inr (inl e)
        | inr i ↦ elim (insert-In x p qs i) [ inl e ↦ inl e | inr j ↦ inr (inr j) ]
      ]
]

sort-In : (x : Row) (ps : Policies) → In x (sort ps) → In x ps
unfolding sort
sort-In x [] i = i
sort-In x (p ∷ ps) i = elim (insert-In x p (sort ps) i) [
  | inl e ↦ inl e
  | inr j ↦ inr (sort-In x ps j)
]

-- No row is more specific than `n`.
abbrev pub AllUpTo : ℕ → Policies → Type 0
AllUpTo n [] = Unit {0}
AllUpTo n (q ∷ qs) = (specificity q.0 ≤ n) × AllUpTo n qs

abbrev pub Sorted : Policies → Type 0
Sorted [] = Unit {0}
Sorted (p ∷ ps) = AllUpTo (specificity p.0) ps × Sorted ps

AllUpTo-mono : (m n : ℕ) (ps : Policies) → m ≤ n → AllUpTo m ps → AllUpTo n ps
AllUpTo-mono m n [] h a = a
AllUpTo-mono m n (p ∷ ps) h a = (omega (arith, a.0), AllUpTo-mono m n ps h a.1)

AllUpTo-insert :
    (n : ℕ) (p : Row) (qs : Policies) → specificity p.0 ≤ n → AllUpTo n qs → AllUpTo n (insert p qs)
unfolding insert
AllUpTo-insert n p [] h a = (h, a)
AllUpTo-insert n p (q ∷ qs) h a = ground (arith, AllUpTo-insert n p qs h a.1)

insert-Sorted : (p : Row) (qs : Policies) → Sorted qs → Sorted (insert p qs)
unfolding insert
insert-Sorted p [] s = (s, s)
insert-Sorted p (q ∷ qs) s = elim (Bool-cases (leb (specificity q.0) (specificity p.0))) [
  | inl t ↦
      let le : specificity q.0 ≤ specificity p.0 = ground (arith, t) in
      rw t ((le, AllUpTo-mono (specificity q.0) (specificity p.0) qs le s.0), s)
  | inr t ↦
      let le : specificity p.0 ≤ specificity q.0 = ground (arith, t) in
      rw t (AllUpTo-insert (specificity q.0) p qs le s.0, insert-Sorted p qs s.1)
]

sort-Sorted : (ps : Policies) → Sorted (sort ps)
unfolding sort
sort-Sorted [] = tt
sort-Sorted (p ∷ ps) = insert-Sorted p (sort ps) (sort-Sorted ps)

AllUpTo-In : (n : ℕ) (x : Row) (ps : Policies) → AllUpTo n ps → In x ps → specificity x.0 ≤ n
AllUpTo-In n x [] a i = absurd i
AllUpTo-In n x (p ∷ ps) a (inl e) = rw e a.0
AllUpTo-In n x (p ∷ ps) a (inr i) = AllUpTo-In n x ps a.1 i

find-best :
    (fallback : AgePolicy) (field : FieldPath) (ps : Policies) (q : Row)
    → Sorted ps
    → In q ps
    → matches q.0 field ≡ true
    → (p : Row) × In p ps
      × (matches p.0 field ≡ true)
      × (specificity q.0 ≤ specificity p.0)
      × (find fallback field ps ≡ p.1)
unfolding find
find-best fallback field [] q s i m = absurd i
find-best fallback field (p ∷ ps) q s i m = elim (Bool-cases (matches p.0 field)) [
  | inl t ↦
      let le : specificity q.0 ≤ specificity p.0 = elim i [
        | inl e ↦ rw e (omega arith)
        | inr j ↦ AllUpTo-In (specificity p.0) q ps s.0 j
      ] in
      (p, inl refl, t, le, rw t refl)
  | inr t ↦
      let j : In q ps = elim i [ inl e ↦ cc | inr j ↦ j ] in
      let (x, i', m', le, eq) = find-best fallback field ps q s.1 j m in
      (x, inr i', m', le, rw t eq)
]

-- For a field that some pattern of the map matches, the policy is that of a pattern of the map
-- that matches it and is at least as specific, wherever the patterns stand in the map.
pub resolve_best :
    (policies : Policies) (fallback : AgePolicy) (field : FieldPath) (q : Row)
    → In q policies
    → matches q.0 field ≡ true
    → (p : Row) × In p policies
      × (matches p.0 field ≡ true)
      × (specificity q.0 ≤ specificity p.0)
      × (resolve policies fallback field ≡ p.1)
resolve_best policies fallback field q i m =
    let (p, j, m', le, eq) =
      find-best fallback field (sort policies) q (sort-Sorted policies) (In-sort q policies i) m in
    (p, sort-In p policies j, m', le, eq)

same_path→eq : (a b : FieldPath) → same_path a b ≡ true → a ≡ b
same_path→eq [] [] h = refl
same_path→eq [] (b ∷ bs) h = cc
same_path→eq (a ∷ rest) [] h = cc
same_path→eq (a ∷ rest) (b ∷ others) h = ground (arith, eq_iff a b, same_path→eq rest others)

module _ (policies : Policies) (fallback : AgePolicy) where
  -- Every cached policy is the one that a lookup finds.
  abbrev pub Faithful : Policies → Type 0
  Faithful [] = Unit {0}
  Faithful ((key, policy) ∷ rest) = (resolve policies fallback key ≡ policy) × Faithful rest

  cached-Faithful :
      (cache : Policies) (field : FieldPath) (policy : AgePolicy)
      → Faithful cache
      → cached cache field ≡ some policy
      → resolve policies fallback field ≡ policy
  unfolding cached
  cached-Faithful [] field policy f h = cc
  cached-Faithful ((key, known) ∷ rest) field policy f h = elim (Bool-cases (same_path key field)) [
    | inl t ↦
        let same_ = same_path→eq key field t in
        let k : some known ≡ some policy = rw t at h in
        let eq : known ≡ policy = cc in ap (resolve policies fallback) (sym same_) ∙ f.0 ∙ eq
    | inr t ↦ cached-Faithful rest field policy f.1 (rw t at h)
  ]

  policy_for-known :
      (cache : Policies) (field : FieldPath) (policy : AgePolicy)
      → cached cache field ≡ some policy
      → policy_for policies fallback cache field ≡ (cache, policy)
  unfolding policy_for
  policy_for-known cache field policy e = rw (e, policy_for) refl

  policy_for-new :
      (cache : Policies) (field : FieldPath)
      → cached cache field ≡ none
      → policy_for policies fallback cache field
        ≡ ((field, resolve policies fallback field) ∷ cache, resolve policies fallback field)
  unfolding policy_for
  policy_for-new cache field e = rw (e, policy_for) refl

  abbrev pub Answered : FieldPath → Policies × AgePolicy → Type 0
  Answered field out = Faithful out.0 × (out.1 ≡ resolve policies fallback field)

  policy_for-Faithful :
      (cache : Policies) (field : FieldPath)
      → Faithful cache
      → Answered field (policy_for policies fallback cache field)
  policy_for-Faithful cache field f = elim (Option-cases (cached cache field)) [
    | inl e ↦ subst (Answered field) (sym (policy_for-new cache field e)) ((refl, f), refl)
    | inr (policy, e) ↦
        subst (Answered field) (sym (policy_for-known cache field policy e))
          (f, sym (cached-Faithful cache field policy f e))
  ]

  -- The answers to one query after another, and the cache that they leave.
  abbrev pub answers : Policies → List FieldPath → List AgePolicy
  answers cache [] = []
  answers cache (field ∷ fields) =
      let out = policy_for policies fallback cache field in out.1 ∷ answers out.0 fields

  -- The cache changes no answer: however often and in whatever order fields are asked for, each
  -- answer is the policy that a lookup without the cache finds.
  pub answers-resolve :
      (cache : Policies) (fields : List FieldPath)
      → Faithful cache
      → answers cache fields ≡ map (resolve policies fallback) fields
  answers-resolve cache [] f = refl
  answers-resolve cache (field ∷ fields) f =
      let (f', eq) = policy_for-Faithful cache field f in
      let out = policy_for policies fallback cache field in
      let rest = answers-resolve out.0 fields f' in
      ap (λ x. x ∷ answers out.0 fields) eq ∙ ap (λ xs. resolve policies fallback field ∷ xs) rest
