-- ===== src/World/State/Laws.antt =====
-- Reading after writing.
use text.Mathlib.Text.{◌==◌ as str_eq}
use text.Mathlib.TextEquality.{eq_iff}
use riki.Prelude.{◌≡◌, Bool, true, false, ◌&&◌, some, String, arith, ◌⊎◌, inl, inr, if◌then◌else◌}
use riki.World.Fact.{Fact}
use riki.World.Precedence.{FieldClass, class_of_parsed}
use riki.World.Path.{
  FieldPath, ParsedPath, meta, self, map, allies, enemies, items_seen, parse_path,
}
use riki.World.State.{WorldState, read_parsed, write_parsed, read_fact, write_fact}

-- Whether two paths name the same leaf.
abbrev pub same_leaf : ParsedPath → ParsedPath → Bool
same_leaf (meta k) (meta j) = str_eq j k
same_leaf (self k) (self j) = str_eq j k
same_leaf (map k) (map j) = str_eq j k
same_leaf (allies h k) (allies g j) = str_eq g h && str_eq j k
same_leaf (enemies h k) (enemies g j) = str_eq g h && str_eq j k
same_leaf (items_seen h k) (items_seen g j) = str_eq g h && str_eq j k
same_leaf _ _ = false

pub read_fact-parsed :
    {V : Type 0} (s : WorldState V) (path : FieldPath) (p : ParsedPath)
    → parse_path path ≡ some p
    → read_fact s path ≡ read_parsed s p
unfolding read_fact
read_fact-parsed s path p h = rw (h, read_fact)

module _ {V : Type 0} (of_hero : String → V) where
  -- A leaf that has a fact holds the written one if it is the leaf that is written, and else its own.
  pub read-write_parsed :
      (s : WorldState V) (p q : ParsedPath) (f e : Fact V)
      → read_parsed s q ≡ some e
      → read_parsed (write_parsed of_hero s p f) q ≡ (if same_leaf p q then some f else some e)
  read-write_parsed s (meta k) (meta j) f e h = ground arith
  read-write_parsed s (self k) (self j) f e h = ground arith
  read-write_parsed s (map k) (map j) f e h = ground arith
  read-write_parsed s (allies a k) (allies b j) f e h = ground (arith, eq_iff b a, eq_iff j k)
  read-write_parsed s (enemies a k) (enemies b j) f e h = ground (arith, eq_iff b a, eq_iff j k)
  read-write_parsed s (enemies a k) (items_seen b j) f e h = ground (arith, eq_iff b a)
  read-write_parsed s (items_seen a k) (enemies b j) f e h = ground (arith, eq_iff b a)
  read-write_parsed s (items_seen a k) (items_seen b j) f e h =
      ground (arith, eq_iff b a, eq_iff j k)
  read-write_parsed s p q f e h = h

  read_written_parsed :
      (s : WorldState V) (p : ParsedPath) (f : Fact V)
      → read_parsed (write_parsed of_hero s p f) p ≡ some f
  read_written_parsed s (meta k) f = ground (arith, eq_iff k k)
  read_written_parsed s (self k) f = ground (arith, eq_iff k k)
  read_written_parsed s (map k) f = ground (arith, eq_iff k k)
  read_written_parsed s (allies h k) f = ground (arith, eq_iff h h, eq_iff k k)
  read_written_parsed s (enemies h k) f = ground (arith, eq_iff h h, eq_iff k k)
  read_written_parsed s (items_seen h k) f = ground (arith, eq_iff h h, eq_iff k k)

  pub write_fact-parsed :
      (s : WorldState V) (path : FieldPath) (p : ParsedPath) (f : Fact V)
      → parse_path path ≡ some p
      → write_fact of_hero s path f ≡ write_parsed of_hero s p f
  unfolding write_fact
  write_fact-parsed s path p f h = rw (h, write_fact)

  -- For a path that names a leaf: the fact that is written is the one that is read back, also where
  -- the write made a new hero's entry; and a second path whose leaf has a fact reads the written
  -- fact if it names the same leaf, and its own as before if it does not.
  pub read_fact-write_fact :
      (s : WorldState V) (path other : FieldPath) (p q : ParsedPath) (f e : Fact V)
      → parse_path path ≡ some p
      → parse_path other ≡ some q
      → read_fact s other ≡ some e
      → (read_fact (write_fact of_hero s path f) path ≡ some f)
        × (read_fact (write_fact of_hero s path f) other
            ≡ (if same_leaf p q then some f else some e))
  read_fact-write_fact s path other p q f e hp hq h = (
    rw (write_fact-parsed s path p f hp, read_fact-parsed _ path p hp) (read_written_parsed s p f),
    rw (write_fact-parsed s path p f hp, read_fact-parsed _ other q hq)
        (read-write_parsed s p q f e (rw (read_fact-parsed s other q hq) at h)),
  )

pub same_leaf→eq : (p q : ParsedPath) → same_leaf p q ≡ true → p ≡ q
same_leaf→eq (meta k) (meta j) h = ground (arith, eq_iff j k)
same_leaf→eq (self k) (self j) h = ground (arith, eq_iff j k)
same_leaf→eq (map k) (map j) h = ground (arith, eq_iff j k)
same_leaf→eq (allies a k) (allies b j) h = ground (arith, eq_iff b a, eq_iff j k)
same_leaf→eq (enemies a k) (enemies b j) h = ground (arith, eq_iff b a, eq_iff j k)
same_leaf→eq (items_seen a k) (items_seen b j) h = ground (arith, eq_iff b a, eq_iff j k)
same_leaf→eq p q h = cc

module _ {V : Type 0} (of_hero : String → V) where
  -- Where a fact that is read after a write came from.
  pub write_parsed-origin :
      (s : WorldState V) (p q : ParsedPath) (f g : Fact V)
      → read_parsed (write_parsed of_hero s p f) q ≡ some g
      → ((g ≡ f) × (p ≡ q)) ⊎ (read_parsed s q ≡ some g) ⊎ (class_of_parsed q ≡ FieldClass.roster)
  unfolding class_of_parsed
  write_parsed-origin s (meta k) (meta j) f g h = ground (arith, eq_iff j k)
  write_parsed-origin s (self k) (self j) f g h = ground (arith, eq_iff j k)
  write_parsed-origin s (map k) (map j) f g h = ground (arith, eq_iff j k)
  write_parsed-origin s (allies a k) (allies b j) f g h = ground (arith, eq_iff b a, eq_iff j k)
  write_parsed-origin s (enemies a k) (enemies b j) f g h = ground (arith, eq_iff b a, eq_iff j k)
  write_parsed-origin s (enemies a k) (items_seen b j) f g h = ground (arith, eq_iff b a)
  write_parsed-origin s (items_seen a k) (enemies b j) f g h = ground (arith, eq_iff b a)
  write_parsed-origin s (items_seen a k) (items_seen b j) f g h =
      ground (arith, eq_iff b a, eq_iff j k)
  write_parsed-origin s p q f g h = inr (inl h)
