-- ===== src/Sources/Tailer/Following.antt =====
-- A file that is written to while it is polled.
use riki.Prelude.{
  ℕ, zero, suc, ◌+◌, ◌-◌, ◌≤◌, ◌≡◌, inl, inr, refl, ◌∙◌, ap, sym, subst, Bool, true, false, not,
  List, [], ◌∷◌, ◌++◌, Option, none, some, arith, leb, length, length-append, filter, map, drop,
  append_assoc, append-nil, Bool-cases,
}
use riki.Sources.Tailer.{
  Text, split, strip_cr, is_empty, Tailer, Disk, take_line, take_lines, consume, publish_if,
  anchored, read_in, read_new, poll_once, match_line,
}
use riki.Sources.Tailer.Lines.{join, split-append}

-- The lines that are worth a matcher's time.
abbrev pub lines_in : List Text → List Text
lines_in raws = filter (λ line. not (is_empty line)) (map strip_cr raws)

-- Where `take` stands for a read of a number of bytes.
abbrev pub take : ℕ → Text → Text
take zero xs = []
take (suc n) [] = []
take (suc n) (x ∷ xs) = x ∷ take n xs

-- How a poll finds the file: it may be missing, or reading it may fail.
pub data Look : Type 0 where
  missing unreadable readable : Look

abbrev pub disk_of : Look → ℕ → Text → Disk
disk_of missing ino content = record { stat = none; read = λ offset n. none }
disk_of unreadable ino content = record {
  stat = some (ino, length content);
  read = λ offset n. none;
}
disk_of readable ino content = record {
  stat = some (ino, length content);
  read = λ offset n. some (take n (drop offset content));
}

drop-length : (xs ys : Text) → drop (length xs) (xs ++ ys) ≡ ys
drop-length [] ys = refl
drop-length (x ∷ xs) ys = drop-length xs ys

take-length : (xs : Text) → take (length xs) xs ≡ xs
take-length [] = refl
take-length (x ∷ xs) = ap (λ ys. x ∷ ys) (take-length xs)

read_rest :
    (seen rest : Text)
    → take (length (seen ++ rest) - length seen) (drop (length seen) (seen ++ rest)) ≡ rest
read_rest seen rest =
    let n : length (seen ++ rest) - length seen ≡ length rest =
      omega (arith, length-append seen rest) in
    rw (n, drop-length seen rest) (take-length rest)

lines_in-append : (xs ys : List Text) → lines_in (xs ++ ys) ≡ lines_in xs ++ lines_in ys
lines_in-append [] ys = refl
lines_in-append (x ∷ xs) ys = ground (arith, lines_in-append xs ys)

module _ {E : Type 0} where
  -- What `take_lines` leaves alone, and the lines that it hands on.
  record Takes (t u : Tailer E) (raws : List Text) : Type 0 where
    same_offset : u.offset ≡ t.offset
    same_inode : u.inode ≡ t.inode
    same_pending : u.pending ≡ t.pending
    hands : u.handed ≡ t.handed ++ lines_in raws

  publish_if-Takes :
      (t : Tailer E) (event : Option E) (now : ℕ) → Takes t (publish_if t event now) []
  publish_if-Takes t none now = record {
    same_offset = refl;
    same_inode = refl;
    same_pending = refl;
    hands = sym (append-nil t.handed);
  }
  publish_if-Takes t (some event) now = record {
    same_offset = refl;
    same_inode = refl;
    same_pending = refl;
    hands = sym (append-nil t.handed);
  }

module _ {E : Type 0} (matchers : List (Text → ℕ → Option E)) (decode : Text → Text)
    (from_start : Bool) where
  -- The tailer follows the file of an inode, has skipped some bytes of it, and has read the bytes `seen`
  -- after them: it has handed on the lines that end in them, after those of before, and holds the
  -- rest back.
  pub record Follows (t : Tailer E) (ino : ℕ) (skipped seen : Text) (before : List Text)
      : Type 0 where
    pub on_inode : t.inode ≡ some ino
    pub at_offset : t.offset ≡ length (skipped ++ seen)
    pub holds_back : t.pending ≡ (split (decode seen)).1
    pub hands_on : t.handed ≡ before ++ lines_in (split (decode seen)).0

  take_line-Takes :
      (t : Tailer E) (raw : Text) (now : ℕ)
      → Takes t (take_line matchers decode from_start t (strip_cr raw) now) (raw ∷ [])
  take_line-Takes t raw now = elim (Bool-cases (is_empty (strip_cr raw))) [
    | inl e ↦ rw e (record {
      same_offset = refl;
      same_inode = refl;
      same_pending = refl;
      hands = ground (arith, e, append-nil t.handed);
    })
    | inr e ↦
        let counted = record t {
          stats = record t.stats { lines_read = t.stats.lines_read + 1 };
          handed = t.handed ++ strip_cr raw ∷ [];
        } in
        let taken = publish_if-Takes counted (match_line matchers (strip_cr raw) now) now in
        rw e (record {
          same_offset = taken.same_offset;
          same_inode = taken.same_inode;
          same_pending = taken.same_pending;
          hands = taken.hands ∙ ground (arith, e, append-nil (t.handed ++ strip_cr raw ∷ []));
        })
  ]

  take_lines-Takes :
      (t : Tailer E) (raws : List Text) (now : ℕ)
      → Takes t (take_lines matchers decode from_start t raws now) raws
  unfolding take_lines
  take_lines-Takes t [] now = record {
    same_offset = refl;
    same_inode = refl;
    same_pending = refl;
    hands = sym (append-nil t.handed);
  }
  take_lines-Takes t (raw ∷ raws) now =
      let one = take_line-Takes t raw now in
      let rest =
        take_lines-Takes (take_line matchers decode from_start t (strip_cr raw) now) raws now in
      record {
        same_offset = rest.same_offset ∙ one.same_offset;
        same_inode = rest.same_inode ∙ one.same_inode;
        same_pending = rest.same_pending ∙ one.same_pending;
        hands =
            rest.hands
            ∙ ap (λ xs. xs ++ lines_in raws) one.hands
            ∙ append_assoc t.handed (lines_in (raw ∷ [])) (lines_in raws)
            ∙ ap (λ xs. t.handed ++ xs) (sym (lines_in-append (raw ∷ []) raws));
      }

  -- Decoding what was read up to a point, and then what was read after it, is decoding it at once.
  abbrev pub Cuts : Text → Text → Type 0
  Cuts seen rest = decode (seen ++ rest) ≡ decode seen ++ decode rest

  read-Follows :
      (t : Tailer E) (ino : ℕ) (skipped seen rest : Text) (before : List Text) (now : ℕ)
      → Cuts seen rest
      → Follows t ino skipped seen before
      → Follows
          (read_in matchers decode from_start t (some rest) now)
          ino
          skipped
          (seen ++ rest)
          before
  unfolding consume
  read-Follows t ino skipped seen rest before now cut f =
      let parts = split (t.pending ++ decode rest) in
      let u = record t { offset = t.offset + length rest; pending = parts.1 } in
      let taken = take_lines-Takes u parts.0 now in
      let same_ : parts ≡ split ((split (decode seen)).1 ++ decode rest) =
        ap (λ p. split (p ++ decode rest)) f.holds_back in
      let whole : split (decode (seen ++ rest))
          ≡ join (split (decode seen)).0 (split ((split (decode seen)).1 ++ decode rest)) =
        ap split cut ∙ split-append (decode seen) (decode rest) in
      record {
        on_inode = taken.same_inode ∙ f.on_inode;
        at_offset =
            taken.same_offset
            ∙ omega (
              arith,
              f.at_offset,
              length-append (skipped ++ seen) rest,
              ap length (append_assoc skipped seen rest),
            );
        holds_back = taken.same_pending ∙ ap (λ p. p.1) same_ ∙ sym (ap (λ p. p.1) whole);
        hands_on =
            taken.hands
            ∙ ap (λ xs. xs ++ lines_in parts.0) f.hands_on
            ∙ append_assoc before (lines_in (split (decode seen)).0) (lines_in parts.0)
            ∙ ap (λ xs. before ++ (lines_in (split (decode seen)).0 ++ lines_in xs.0)) same_
            ∙ ap (λ xs. before ++ xs)
                (sym (ap (λ p. lines_in p.0) whole ∙ lines_in-append (split (decode seen)).0 _));
      }

  error-Follows :
      (t : Tailer E) (ino : ℕ) (skipped seen : Text) (before : List Text) (now : ℕ)
      → Follows t ino skipped seen before
      → Follows (read_in matchers decode from_start t none now) ino skipped seen before
  error-Follows t ino skipped seen before now f = record {
    on_inode = f.on_inode;
    at_offset = f.at_offset;
    holds_back = f.holds_back;
    hands_on = f.hands_on;
  }

  -- The branches on the inode and the size leave a tailer that follows the file alone.
  same_file :
      (t : Tailer E) (ino size : ℕ)
      → t.inode ≡ some ino
      → t.offset ≤ size
      → anchored matchers decode from_start t t.inode ino size ≡ t
  same_file t ino size e fits =
      ap (λ i. anchored matchers decode from_start t i ino size) e ∙ ground (arith, fits)

  pub read_new-Follows :
      (t : Tailer E) (ino : ℕ) (skipped seen rest : Text) (before : List Text) (now : ℕ)
      → Cuts seen rest
      → Follows t ino skipped seen before
      → Follows
          (read_new matchers decode from_start t
            (length ((skipped ++ seen) ++ rest))
            (disk_of readable ino ((skipped ++ seen) ++ rest)).read
            now)
          ino
          skipped
          (seen ++ rest)
          before
  read_new-Follows t ino skipped seen [] before now cut f =
      let whole : length (skipped ++ seen ++ []) ≡ length (skipped ++ seen) =
        ap length (append-nil (skipped ++ seen)) in
      let guard : leb (length (skipped ++ seen ++ [])) t.offset ≡ true =
        ground (arith, whole, f.at_offset) in
      rw guard (subst (λ s. Follows t ino skipped s before) (sym (append-nil seen)) f)
  read_new-Follows t ino skipped seen (x ∷ rest) before now cut f =
      let content = skipped ++ seen ++ x ∷ rest in
      let longer = length-append (skipped ++ seen) (x ∷ rest) in
      let guard : leb (length content) t.offset ≡ false = ground (arith, longer, f.at_offset) in
      let bytes : some (take (length content - t.offset) (drop t.offset content))
          ≡ some (x ∷ rest) =
        ap (λ n. some (take (length content - n) (drop n content))) f.at_offset
        ∙ ap some (read_rest (skipped ++ seen) (x ∷ rest)) in
      rw guard (
        subst
          (λ r.
            Follows (read_in matchers decode from_start t r now) ino skipped (seen ++ x ∷ rest)
              before)
          (sym bytes) (read-Follows t ino skipped seen (x ∷ rest) before now cut f))

  -- A poll of the file that the tailer follows, with more bytes at its end.
  pub poll-Follows :
      (t : Tailer E) (ino : ℕ) (skipped seen rest : Text) (before : List Text) (now : ℕ)
      → Cuts seen rest
      → Follows t ino skipped seen before
      → Follows
          (poll_once matchers decode from_start t
            (disk_of readable ino (skipped ++ seen ++ rest))
            now)
          ino
          skipped
          (seen ++ rest)
          before
  unfolding poll_once
  poll-Follows t ino skipped seen rest before now cut f =
      let content = skipped ++ seen ++ rest in
      let same_ =
        same_file t ino (length content) f.on_inode
          (omega (arith, f.at_offset, length-append (skipped ++ seen) rest)) in
      subst
        (λ u.
          Follows
            (read_new matchers decode from_start u (length content)
              (disk_of readable ino content).read now)
            ino skipped (seen ++ rest) before)
        (sym same_) (read_new-Follows t ino skipped seen rest before now cut f)

  -- A poll that does not find the file, or cannot read it.
  pub failed-Follows :
      (t : Tailer E) (ino : ℕ) (skipped seen rest : Text) (before : List Text) (now : ℕ)
      → (look : Look) → (look ≡ readable → ⊥)
      → Follows t ino skipped seen before
      → Follows
          (poll_once matchers decode from_start t (disk_of look ino (skipped ++ seen ++ rest)) now)
          ino
          skipped
          seen
          before
  unfolding poll_once
  failed-Follows t ino skipped seen rest before now missing h f = f
  failed-Follows t ino skipped seen rest before now readable h f = absurd (h refl)
  failed-Follows t ino skipped seen rest before now unreadable h f =
      let content = skipped ++ seen ++ rest in
      let same_ =
        same_file t ino (length content) f.on_inode
          (omega (arith, f.at_offset, length-append (skipped ++ seen) rest)) in
      subst
        (λ u.
          Follows
            (read_new matchers decode from_start u (length content)
              (disk_of unreadable ino content).read now)
            ino skipped seen before)
        (sym same_)
        (elim (Bool-cases (leb (length content) t.offset)) [
          | inl g ↦ rw g f
          | inr g ↦ rw g (error-Follows t ino skipped seen before now f)
        ])
