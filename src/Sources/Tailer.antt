-- ===== src/Sources/Tailer.antt =====
-- packages/log-tail/src/tailer.ts: following console.log. A text is the list of its code units, a file
-- the list of its bytes. What a poll sees of the file system is its argument, and so are the matchers,
-- the decoding of bytes, and the clocks. `handed` is the trace of the lines given to the matchers.
pub mod Lines
pub mod Following
pub mod Runs
mod Tests
use riki.Prelude.{
  ℕ, zero, suc, ◌+◌, ◌-◌, Bool, true, false, not, ◌||◌, List, [], ◌∷◌, ◌++◌, Option, none, some,
  ltb, leb, ◌==◌, length, filter, if◌then◌else◌,
}

abbrev pub Text : Type 0
Text = List ℕ

abbrev pub newline : ℕ
newline = 10

abbrev pub carriage_return : ℕ
carriage_return = 13

abbrev pub default_poll_ms : ℕ
default_poll_ms = 250

abbrev pub quiet_threshold_ms : ℕ
quiet_threshold_ms = 300_000

abbrev pub glue : ℕ → List Text × Text → List Text × Text
glue c ([], rest) = ([], c ∷ rest)
glue c (line ∷ lines, rest) = ((c ∷ line) ∷ lines, rest)

-- `split('\n')` with `pop`: the parts before the last, and the last.
unfoldable pub split : Text → List Text × Text
split [] = ([], [])
split (c ∷ cs) =
    let parts = split cs in if c == newline then ([] ∷ parts.0, parts.1) else glue c parts

-- `replace(/\r$/, '')`
unfoldable pub strip_cr : Text → Text
strip_cr [] = []
strip_cr (c ∷ []) = if c == carriage_return then [] else c ∷ []
strip_cr (c ∷ d ∷ cs) = c ∷ strip_cr (d ∷ cs)

pub record Stats : Type 0 where
  pub lines_read : ℕ
  pub events_published : ℕ
  pub rotations : ℕ
  pub truncations : ℕ
  pub read_errors : ℕ

pub record Published (E : Type 0) : Type 0 where
  pub seq : ℕ
  pub received_at : ℕ
  pub event : E

pub record Tailer (E : Type 0) : Type 0 where
  pub offset : ℕ
  pub inode : Option ℕ
  pub pending : Text
  pub seq : ℕ
  pub last_event_at : Option ℕ
  pub started_at : Option ℕ
  pub running : Bool
  pub stats : Stats
  pub published : List (Published E)
  pub handed : List Text

-- What `stat` says, and what reading a number of bytes at an offset gives, `none` for an error.
pub record Disk : Type 0 where
  pub stat : Option (ℕ × ℕ)
  pub read : ℕ → ℕ → Option Text

pub data Health : Type 0 where
  not_started waiting quiet live : Health

abbrev pub is_empty : Text → Bool
is_empty [] = true
is_empty (c ∷ cs) = false

-- `matchLine`: the first match wins. The match clock that a matcher is given too is left to it.
unfoldable pub match_line : {E : Type 0} → List (Text → ℕ → Option E) → Text → ℕ → Option E
match_line [] line at = none
match_line (matcher ∷ matchers) line at = elim (matcher line at) [
  | none ↦ match_line matchers line at
  | some event ↦ some event
]

module _ {E : Type 0} where
  abbrev pub publish : Tailer E → E → ℕ → Tailer E
  publish t event received_at = record t {
    seq = t.seq + 1;
    last_event_at = some received_at;
    stats = record t.stats { events_published = t.stats.events_published + 1 };
    published =
        t.published ++ (record { seq = t.seq; received_at = received_at; event = event }) ∷ [];
  }

  abbrev pub publish_if : Tailer E → Option E → ℕ → Tailer E
  publish_if t none received_at = t
  publish_if t (some event) received_at = publish t event received_at

module _ {E : Type 0} (matchers : List (Text → ℕ → Option E)) (decode : Text → Text)
    (from_start : Bool) where
  -- The body of the loop of `consume`, for a line from which the carriage return was taken.
  abbrev pub take_line : Tailer E → Text → ℕ → Tailer E
  take_line t line received_at =
      let counted = record t {
        stats = record t.stats { lines_read = t.stats.lines_read + 1 };
        handed = t.handed ++ line ∷ [];
      } in
      if is_empty line
      then t
      else publish_if counted (match_line matchers line received_at) received_at

  unfoldable pub take_lines : Tailer E → List Text → ℕ → Tailer E
  take_lines t [] received_at = t
  take_lines t (raw ∷ raws) received_at =
      take_lines (take_line t (strip_cr raw) received_at) raws received_at

  unfoldable pub consume : Tailer E → Text → ℕ → Tailer E
  unfolding split take_lines strip_cr match_line
  consume t chunk received_at =
      let parts = split (t.pending ++ chunk) in
      take_lines (record t { pending = parts.1 }) parts.0 received_at

  -- The three branches on the inode and the size, on the inode of before.
  abbrev pub anchored : Tailer E → Option ℕ → ℕ → ℕ → Tailer E
  anchored t none ino size = record t { inode = some ino; offset = if from_start then 0 else size }
  anchored t (some old) ino size =
      if not (ino == old)
      then record t {
        inode = some ino;
        offset = 0;
        pending = [];
        stats = record t.stats { rotations = t.stats.rotations + 1 };
      }
      else if ltb size t.offset
      then record t {
        offset = 0;
        pending = [];
        stats = record t.stats { truncations = t.stats.truncations + 1 };
      }
      else t

  abbrev pub read_in : Tailer E → Option Text → ℕ → Tailer E
  read_in t none now = record t { stats = record t.stats { read_errors = t.stats.read_errors + 1 } }
  read_in t (some bytes) now =
      consume (record t { offset = t.offset + length bytes }) (decode bytes) now

  abbrev pub read_new : Tailer E → ℕ → (ℕ → ℕ → Option Text) → ℕ → Tailer E
  read_new t size read now =
      if leb size t.offset then t else read_in t (read t.offset (size - t.offset)) now

  abbrev pub poll_stat : Tailer E → Option (ℕ × ℕ) → (ℕ → ℕ → Option Text) → ℕ → Tailer E
  poll_stat t none read now = t
  poll_stat t (some (ino, size)) read now = read_new (anchored t t.inode ino size) size read now

  unfoldable pub poll_once : Tailer E → Disk → ℕ → Tailer E
  unfolding consume
  poll_once t disk now = poll_stat t disk.stat disk.read now

  unfoldable pub start : Tailer E → Disk → ℕ → Tailer E
  unfolding poll_once
  start t disk now =
      if t.running
      then t
      else poll_once (record t { running = true; started_at = some now }) disk now

unfoldable pub stop : {E : Type 0} → Tailer E → Tailer E
stop t = record t { running = false }

abbrev or_else : Option ℕ → ℕ → ℕ
or_else none n = n
or_else (some m) n = m

abbrev health_since : Option ℕ → Option ℕ → Option ℕ → ℕ → Health
health_since none inode last now = not_started
health_since (some started) none last now = waiting
health_since (some started) (some ino) last now =
    if ltb (or_else last started + quiet_threshold_ms) now then quiet else live

unfoldable pub health : {E : Type 0} → Tailer E → ℕ → Health
health t now =
    if t.running then health_since t.started_at t.inode t.last_event_at now else not_started
