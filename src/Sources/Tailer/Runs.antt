-- ===== src/Sources/Tailer/Runs.antt =====
-- Polls of a file that grows, is replaced or is cut off.
use riki.Prelude.{
  ℕ, ◌<◌, ◌≡◌, inl, inr, refl, ◌∙◌, ap, sym, subst, Bool, true, false, List, [], ◌∷◌, ◌++◌, Option,
  none, some, arith, ltb, leb, ◌||◌, all, ◌==◌, length, append_assoc, append-nil, Bool-cases, ◌⊎◌,
}
use riki.Sources.Tailer.{Text, split, Tailer, anchored, read_new, poll_once}
use riki.Sources.Tailer.Following.{
  Look, missing, unreadable, readable, disk_of, lines_in, Follows, poll-Follows, failed-Follows,
  read_new-Follows,
}

-- What was appended to the file since the last poll, how the poll finds it, and its time.
pub record Step : Type 0 where
  pub appended : Text
  pub look : Look
  pub now : ℕ

-- No continuation byte of UTF-8 stands first.
abbrev pub starts_character : Text → Bool
starts_character [] = true
starts_character (c ∷ cs) = ltb c 128 || leb 192 c

starts_character-append :
    (a b : Text)
    → starts_character a ≡ true
    → starts_character b ≡ true
    → starts_character (a ++ b) ≡ true
starts_character-append [] b h k = k
starts_character-append (c ∷ a) b h k = h

abbrev pub written : List Step → Text
written [] = []
written (s ∷ steps) = s.appended ++ written steps

module _ {E : Type 0} (matchers : List (Text → ℕ → Option E)) (decode : Text → Text)
    (from_start : Bool) where
  -- A file that starts with `skipped` and then has `seen`.
  abbrev pub polls : Tailer E → ℕ → Text → Text → List Step → Tailer E
  polls t ino skipped seen [] = t
  polls t ino skipped seen (s ∷ steps) =
      polls
        (poll_once matchers decode from_start t
          (disk_of s.look ino (skipped ++ (seen ++ s.appended))) s.now)
        ino skipped (seen ++ s.appended) steps

  -- Bytes may be decoded by parts that are cut where a character starts. UTF-8 is so: a byte that is
  -- no continuation byte ends what stands before it, as the end of the bytes does.
  abbrev pub CutsAtCharacters : Type 0
  CutsAtCharacters =
      (a b : Text) → starts_character b ≡ true → decode (a ++ b) ≡ decode a ++ decode b

  -- The tailer has read some of what is there, up to the start of a character.
  abbrev Behind : Tailer E → ℕ → Text → Text → List Text → Type 0
  Behind t ino skipped whole before =
      (seen : Text) × (rest : Text) × (whole ≡ seen ++ rest)
      × (starts_character rest ≡ true)
      × Follows matchers decode from_start t ino skipped seen before

  caught_up :
      CutsAtCharacters
      → (t : Tailer E) (ino : ℕ) (skipped whole more : Text) (before : List Text) (now : ℕ)
      → starts_character more ≡ true
      → Behind t ino skipped whole before
      → Follows matchers decode from_start
          (poll_once matchers decode from_start t
            (disk_of readable ino (skipped ++ (whole ++ more)))
            now)
          ino
          skipped
          (whole ++ more)
          before
  caught_up cuts t ino skipped whole more before now m (seen, rest, e, c, f) =
      let joined : seen ++ (rest ++ more) ≡ whole ++ more =
        sym (append_assoc seen rest more) ∙ ap (λ w. w ++ more) (sym e) in
      subst
        (λ w.
          Follows matchers decode from_start
            (poll_once matchers decode from_start t (disk_of readable ino (skipped ++ w)) now) ino
            skipped w before)
        joined
        (subst
          (λ c.
            Follows matchers decode from_start
              (poll_once matchers decode from_start t (disk_of readable ino c) now) ino skipped
              (seen ++ (rest ++ more)) before)
          (append_assoc skipped seen (rest ++ more))
          (poll-Follows matchers decode from_start t ino skipped seen (rest ++ more) before now
            (cuts seen (rest ++ more) (starts_character-append rest more c m)) f))

  still_behind :
      (t : Tailer E) (ino : ℕ) (skipped whole more : Text) (before : List Text) (now : ℕ)
      (look : Look)
      → (look ≡ readable → ⊥)
      → starts_character more ≡ true
      → Behind t ino skipped whole before
      → Behind
          (poll_once matchers decode from_start t
            (disk_of look ino (skipped ++ (whole ++ more)))
            now)
          ino
          skipped
          (whole ++ more)
          before
  still_behind t ino skipped whole more before now look h m (seen, rest, e, c, f) =
      let joined : seen ++ (rest ++ more) ≡ whole ++ more =
        sym (append_assoc seen rest more) ∙ ap (λ w. w ++ more) (sym e) in
      (
        seen,
        rest ++ more,
        sym joined,
        starts_character-append rest more c m,
        subst
            (λ c.
              Follows matchers decode from_start
                (poll_once matchers decode from_start t (disk_of look ino c) now) ino skipped seen
                before)
            (append_assoc skipped seen (rest ++ more) ∙ ap (λ w. skipped ++ w) joined)
            (failed-Follows matchers decode from_start t ino skipped seen (rest ++ more) before now
              look h f),
      )

  polled :
      CutsAtCharacters
      → (t : Tailer E) (ino : ℕ) (skipped whole more : Text) (before : List Text) (now : ℕ)
        (look : Look)
      → starts_character more ≡ true
      → Behind t ino skipped whole before
      → Behind
          (poll_once matchers decode from_start t
            (disk_of look ino (skipped ++ (whole ++ more)))
            now)
          ino
          skipped
          (whole ++ more)
          before
  polled cuts t ino skipped whole more before now readable m b = (
    whole ++ more,
    [],
    sym (append-nil (whole ++ more)),
    refl,
    caught_up cuts t ino skipped whole more before now m b,
  )
  polled cuts t ino skipped whole more before now missing m b =
      still_behind t ino skipped whole more before now missing (λ h. absurd (cc)) m b
  polled cuts t ino skipped whole more before now unreadable m b =
      still_behind t ino skipped whole more before now unreadable (λ h. absurd (cc)) m b

  polls-Behind :
      CutsAtCharacters
      → (ino : ℕ) (skipped : Text) (before : List Text) (steps : List Step) (t : Tailer E)
        (whole : Text)
      → all (λ s. starts_character s.appended) steps ≡ true
      → Behind t ino skipped whole before
      → Behind (polls t ino skipped whole steps) ino skipped (whole ++ written steps) before
  polls-Behind cuts ino skipped before [] t whole h b =
      subst (λ w. Behind t ino skipped w before) (sym (append-nil whole)) b
  polls-Behind cuts ino skipped before (s ∷ steps) t whole h b =
      let next =
        poll_once matchers decode from_start t
          (disk_of s.look ino (skipped ++ (whole ++ s.appended))) s.now in
      subst (λ w. Behind (polls t ino skipped whole (s ∷ steps)) ino skipped w before)
        (append_assoc whole s.appended (written steps))
        (polls-Behind cuts ino skipped before steps next (whole ++ s.appended) (ground (arith, h))
          (polled cuts t ino skipped whole s.appended before s.now s.look (ground (arith, h)) b))

  -- A file, in an encoding that may be decoded by parts cut where a character starts, grows by
  -- characters between the polls of a tailer that follows it: what is written from one poll to the
  -- next never starts inside a character. Then, however it grows, and whichever of the polls do not find
  -- or cannot read it, after one more poll that can, the lines given to the matchers are the
  -- complete lines of all that was read and written, each once and in order, after those of before.
  pub polls_follow :
      CutsAtCharacters
      → (t : Tailer E) (ino : ℕ) (skipped seen more : Text) (before : List Text) (steps : List Step)
        (now : ℕ)
      → all (λ s. starts_character s.appended) steps ≡ true
      → starts_character more ≡ true
      → Follows matchers decode from_start t ino skipped seen before
      → Follows matchers decode from_start
          (poll_once matchers decode from_start
            (polls t ino skipped seen steps)
            (disk_of readable ino (skipped ++ ((seen ++ written steps) ++ more)))
            now)
          ino
          skipped
          ((seen ++ written steps) ++ more)
          before
  polls_follow cuts t ino skipped seen more before steps now h m f =
      caught_up cuts (polls t ino skipped seen steps) ino skipped (seen ++ written steps) more
        before now m
        (polls-Behind cuts ino skipped before steps t seen h
          (seen, [], sym (append-nil seen), refl, f))

  -- From the start of a file, with nothing held back.
  abbrev Restarted : Tailer E → Tailer E → ℕ → Type 0
  Restarted t u ino =
      (u.inode ≡ some ino) × (u.offset ≡ 0) × (u.pending ≡ []) × (u.handed ≡ t.handed)

  anchored-Restarted :
      (t : Tailer E) (ino old size : ℕ)
      → ((ino == old) ≡ false) ⊎ (size < t.offset)
      → t.inode ≡ some old
      → Restarted t (anchored matchers decode from_start t (some old) ino size) ino
  anchored-Restarted t ino old size h e = elim (Bool-cases (ino == old)) [
    | inr other ↦ rw other (refl, refl, refl, refl)
    | inl one ↦ elim (Bool-cases (ltb size t.offset)) [
      | inl cut ↦ rw (one, cut) (ground (arith, e, one), refl, refl, refl)
      | inr kept ↦ absurd (ground (arith, h, one, kept))
    ]
  ]

  Restarted-Follows :
      (t u : Tailer E) (ino : ℕ)
      → decode [] ≡ []
      → Restarted t u ino
      → Follows matchers decode from_start u ino [] [] t.handed
  unfolding split
  Restarted-Follows t u ino blank (a, b, c, d) = record {
    on_inode = a;
    at_offset = b;
    holds_back = c ∙ sym (ap (λ x. (split x).1) blank);
    hands_on =
        d ∙ sym (append-nil t.handed) ∙ ap (λ x. t.handed ++ lines_in (split x).0) (sym blank);
  }

  -- No bytes decode to no text. When a tailer that has seen a file finds another file at the path, or
  -- the same file with fewer bytes than were read of it, and can read it, the poll drops what was
  -- held back, and follows what it finds from its first byte on: the lines given to the matchers are
  -- those of before and then the complete lines of the whole file.
  pub restarts_anew :
      (t : Tailer E) (ino old : ℕ) (content : Text) (now : ℕ)
      → decode [] ≡ []
      → t.inode ≡ some old
      → ((ino == old) ≡ false) ⊎ (length content < t.offset)
      → Follows matchers decode from_start
          (poll_once matchers decode from_start t (disk_of readable ino content) now)
          ino
          []
          content
          t.handed
  unfolding poll_once
  restarts_anew t ino old content now blank e h =
      let size = length content in
      let u = anchored matchers decode from_start t (some old) ino size in
      let f = Restarted-Follows t u ino blank (anchored-Restarted t ino old size h e) in
      let cut : decode ([] ++ content) ≡ decode [] ++ decode content =
        ap (λ x. x ++ decode content) (sym blank) in
      let g = read_new-Follows matchers decode from_start u ino [] [] content t.handed now cut f in
      subst
        (λ i.
          Follows matchers decode from_start
            (read_new matchers decode from_start (anchored matchers decode from_start t i ino size)
              size (disk_of readable ino content).read now)
            ino [] content t.handed)
        (sym e) g

-- The first poll of a tailer that does not start from the beginning: it skips what is there.
pub first-Follows :
    {E : Type 0} (matchers : List (Text → ℕ → Option E)) (decode : Text → Text) (t : Tailer E)
    (ino : ℕ) (content : Text) (now : ℕ)
    → decode [] ≡ []
    → t.inode ≡ none
    → t.pending ≡ []
    → Follows matchers decode false
        (poll_once matchers decode false t (disk_of readable ino content) now)
        ino
        content
        []
        t.handed
unfolding poll_once split
first-Follows matchers decode t ino content now blank e p =
    let u = anchored matchers decode false t none ino (length content) in
    let full : leb (length content) u.offset ≡ true = ground arith in
    let f : Follows matchers decode false u ino content [] t.handed = record {
      on_inode = refl;
      at_offset = ap length (sym (append-nil content));
      holds_back = p ∙ sym (ap (λ x. (split x).1) blank);
      hands_on = sym (append-nil t.handed) ∙ ap (λ x. t.handed ++ lines_in (split x).0) (sym blank);
    } in
    let g : Follows matchers decode false
        (read_new matchers decode false u (length content) (disk_of readable ino content).read now)
        ino content [] t.handed =
      rw full f in
    subst
      (λ i.
        Follows matchers decode false
          (read_new matchers decode false (anchored matchers decode false t i ino (length content))
            (length content) (disk_of readable ino content).read now)
          ino content [] t.handed)
      (sym e) g
