-- ===== src/World/Timeline/Moments.antt =====
-- The moments of a recording, its lines and their times.
use riki.Prelude.{
  ℕ, zero, suc, ◌+◌, ◌-◌, ◌≤◌, ◌<◌, ◌≡◌, refl, ◌∙◌, ap, sym, subst, true, List, [], ◌∷◌, Option,
  some, arith, length, leb, ◌&&◌, Bool, true, Option-cases, Bool-cases, inl, inr,
}
use riki.World.Record.{Line}
use riki.World.Timeline.{TimelineInstant, get_elem?, moments_from, line_at_ms, is_header}
use riki.World.Timeline.Search.{Monotone, get_elem?-none}
use riki.World.Timeline.Anchor.{InOrder}
use riki.World.Timeline.Reader.{time_up_to}

module _ {O K : Type 0} where
  -- A test of the order of neighbours.
  abbrev pub ascending : List (Line O K) → Bool
  ascending [] = true
  ascending (x ∷ []) = true
  ascending (x ∷ y ∷ lines) = leb x.at_ms y.at_ms && ascending (y ∷ lines)

  head_first :
      (x : Line O K) (lines : List (Line O K)) (j : ℕ)
      → ascending (x ∷ lines) ≡ true
      → j < length (x ∷ lines)
      → x.at_ms ≤ line_at_ms (get_elem? (x ∷ lines) j)
  head_first x lines zero a h = omega arith
  head_first x [] (suc j) a h = absurd (omega arith)
  head_first x (y ∷ lines) (suc j) a h = ground (arith, a, h, head_first y lines j)

  pub ascending-InOrder : (lines : List (Line O K)) → ascending lines ≡ true → InOrder lines
  ascending-InOrder [] a i j h k = absurd (omega arith)
  ascending-InOrder (x ∷ lines) a zero j h k = head_first x lines j a k
  ascending-InOrder (x ∷ lines) a (suc i) zero h k = absurd (omega arith)
  ascending-InOrder (x ∷ []) a (suc i) (suc j) h k = absurd (omega arith)
  ascending-InOrder (x ∷ y ∷ lines) a (suc i) (suc j) h k =
      ascending-InOrder (y ∷ lines) (ground (arith, a)) i j (omega arith) (omega arith)

  -- A moment has the time of its line.
  record OfLine (start i : ℕ) (lines : List (Line O K)) (m : TimelineInstant) : Type 0 where
    from_start : i ≤ m.line_index
    inside : m.line_index < i + length lines
    timed : m.at_ms ≡ line_at_ms (get_elem? lines (m.line_index - i))

  OfLine-next :
      (start i : ℕ) (line : Line O K) (lines : List (Line O K)) (m : TimelineInstant)
      → OfLine start (i + 1) lines m
      → OfLine start i (line ∷ lines) m
  OfLine-next start i line lines m o =
      let shift : m.line_index - i ≡ suc (m.line_index - (i + 1)) = omega (arith, o.from_start) in
      record {
        from_start = omega (arith, o.from_start);
        inside = omega (arith, o.inside);
        timed = rw shift o.timed;
      }

  moment-OfLine :
      (start i : ℕ) (lines : List (Line O K)) (j : ℕ) (m : TimelineInstant)
      → get_elem? (moments_from start i lines) j ≡ some m
      → OfLine start i lines m
  unfolding moments_from
  moment-OfLine start i [] j m e = absurd (cc)
  moment-OfLine start i (line ∷ lines) zero m e = elim (Bool-cases (is_header line.body)) [
    | inl t ↦
        OfLine-next start i line lines m
          (moment-OfLine start (i + 1) lines zero m (ground (arith, e, t)))
    | inr t ↦
        let here : TimelineInstant = record {
          at_ms = line.at_ms;
          now = start + line.at_ms;
          clock = line.clock;
          line_index = i;
        } in
        let same_ : here ≡ m = ground (arith, e, t) in
        let none_before : i - i ≡ 0 = omega arith in
        subst (OfLine start i (line ∷ lines)) same_
          (record { from_start = omega arith; inside = omega arith; timed = rw none_before refl })
  ]
  moment-OfLine start i (line ∷ lines) (suc j) m e = elim (Bool-cases (is_header line.body)) [
    | inl t ↦
        OfLine-next start i line lines m
          (moment-OfLine start (i + 1) lines (suc j) m (ground (arith, e, t)))
    | inr t ↦
        OfLine-next start i line lines m
          (moment-OfLine start (i + 1) lines j m (ground (arith, e, t)))
  ]

  line_order :
      (start i : ℕ) (lines : List (Line O K)) (j k : ℕ) (m n : TimelineInstant)
      → j ≤ k
      → get_elem? (moments_from start i lines) j ≡ some m
      → get_elem? (moments_from start i lines) k ≡ some n
      → m.line_index ≤ n.line_index
  unfolding moments_from
  line_order start i [] j k m n h e f = absurd (cc)
  line_order start i (line ∷ lines) zero zero m n h e f =
      let same_ : ◌≡◌ {A = Option TimelineInstant} (some m) (some n) = sym e ∙ f in
      let fields : m ≡ n = cc in ground (arith, ap (λ x. x.line_index) fields)
  line_order start i (line ∷ lines) zero (suc k) m n h e f =
      elim (Bool-cases (is_header line.body)) [
        | inl t ↦
            line_order start (i + 1) lines zero (suc k) m n (omega arith) (ground (arith, e, t))
              (ground (arith, f, t))
        | inr t ↦
            let here : TimelineInstant = record {
              at_ms = line.at_ms;
              now = start + line.at_ms;
              clock = line.clock;
              line_index = i;
            } in
            let same_ : here ≡ m = ground (arith, e, t) in
            let later = moment-OfLine start (i + 1) lines k n (ground (arith, f, t)) in
            omega (arith, later.from_start, ap (λ x. x.line_index) same_)
      ]
  line_order start i (line ∷ lines) (suc j) zero m n h e f = absurd (omega arith)
  line_order start i (line ∷ lines) (suc j) (suc k) m n h e f =
      elim (Bool-cases (is_header line.body)) [
        | inl t ↦
            line_order start (i + 1) lines (suc j) (suc k) m n h (ground (arith, e, t))
              (ground (arith, f, t))
        | inr t ↦
            line_order start (i + 1) lines j k m n (omega arith) (ground (arith, e, t))
              (ground (arith, f, t))
      ]

  -- So the search by time is for a predicate that holds up to some moment.
  pub time_up_to-Monotone :
      (start : ℕ) (lines : List (Line O K)) (last : TimelineInstant) (ago_ms : ℕ)
      → InOrder lines
      → Monotone (time_up_to last ago_ms) (moments_from start 0 lines)
  time_up_to-Monotone start lines last ago_ms ordered j k h t =
      elim (Option-cases (get_elem? (moments_from start 0 lines) k)) [
        | inl f ↦ absurd (ground (arith, f, t))
        | inr (n, f) ↦ elim (Option-cases (get_elem? (moments_from start 0 lines) j)) [
          | inl e ↦ absurd (ground (arith, t, get_elem?-none (moments_from start 0 lines) j k h e))
          | inr (m, e) ↦
              let of_m = moment-OfLine start 0 lines j m e in
              let of_n = moment-OfLine start 0 lines k n f in
              let order = line_order start 0 lines j k m n h e f in
              let times =
                ordered (m.line_index - 0) (n.line_index - 0) (omega (arith, order))
                  (omega (arith, of_n.inside)) in
              let earlier : m.at_ms ≤ n.at_ms = omega (arith, of_m.timed, of_n.timed, times) in
              let at_n : leb (n.at_ms + ago_ms) last.at_ms ≡ true = rw f at t in
              rw e (ground (arith, at_n, earlier))
        ]
      ]
