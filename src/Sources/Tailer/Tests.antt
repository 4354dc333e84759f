-- ===== src/Sources/Tailer/Tests.antt =====
-- A tailer whose matchers take any line, and polls of small files.
use riki.Prelude.{
  ℕ, ◌≡◌, inl, refl, arith, ◌-◌, ◌*◌, ◌+◌, ◌&&◌, not, ltb, leb, if◌then◌else◌, false, List, [], ◌∷◌,
  ◌++◌, Option, none, some, length,
}
use riki.Sources.Tailer.{
  Text, Tailer, split, strip_cr, take_lines, match_line, consume, poll_once, start, stop, health,
  quiet, not_started,
}
use riki.Sources.Tailer.Following.{unreadable, readable, disk_of, Follows}
use riki.Sources.Tailer.Runs.{
  Step, written, polls, starts_character, CutsAtCharacters, polls_follow, restarts_anew,
  first-Follows,
}

abbrev fresh : Tailer ℕ
fresh = record {
  offset = 0;
  inode = none;
  pending = [];
  seq = 0;
  last_event_at = none;
  started_at = none;
  running = false;
  stats = record {
    lines_read = 0;
    events_published = 0;
    rotations = 0;
    truncations = 0;
    read_errors = 0;
  };
  published = [];
  handed = [];
}

-- An event is the length of its line.
abbrev any_line : List (Text → ℕ → Option ℕ)
any_line = (λ line at. some (length line)) ∷ []

abbrev decoded_as : ℕ → Option ℕ → ℕ
decoded_as c none = if ltb c 128 then c else 65_533
decoded_as c (some d) = (c - 192) * 64 + (d - 128)

-- UTF-8 for the characters of one byte and of two; what is cut or out of range is replaced.
abbrev two_bytes : Text → Text
two_bytes [] = []
two_bytes (c ∷ []) = decoded_as c none ∷ []
two_bytes (c ∷ d ∷ cs) =
    let after_one = two_bytes (d ∷ cs) in
    let after_two = two_bytes cs in
    if leb 192 c && not (starts_character (d ∷ cs))
    then decoded_as c (some d) ∷ after_two
    else decoded_as c none ∷ after_one

abbrev old_file : Text
old_file = 65 ∷ 10 ∷ []

-- Two bytes of the old file are skipped; a line comes in two polls, with one that fails between.
abbrev later_steps : List Step
later_steps =
    record { appended = 66 ∷ 195 ∷ 169 ∷ []; look = readable; now = 250 }
    ∷ record { appended = 13 ∷ []; look = unreadable; now = 500 }
    ∷ []

abbrev following : Tailer ℕ
following = poll_once any_line two_bytes false fresh (disk_of readable 7 old_file) 0

two_lines : split (66 ∷ 10 ∷ 67 ∷ 10 ∷ 68 ∷ []) ≡ ((66 ∷ []) ∷ (67 ∷ []) ∷ [], 68 ∷ [])
unfolding split
two_lines = refl

joined_line :
    (poll_once any_line two_bytes false
      (polls any_line two_bytes false following 7 old_file [] later_steps)
      (disk_of readable 7 (65 ∷ 10 ∷ 66 ∷ 195 ∷ 169 ∷ 13 ∷ 10 ∷ 68 ∷ []))
      750).handed
    ≡ (66 ∷ 233 ∷ []) ∷ []
unfolding poll_once consume take_lines split strip_cr match_line
joined_line = refl

quiet_after :
    health (start any_line two_bytes false fresh (disk_of readable 7 old_file) 5) 300_006 ≡ quiet
unfolding health start poll_once
quiet_after = refl

not_yet : health (stop fresh) 5 ≡ not_started
unfolding health stop
not_yet = refl

following-Follows : Follows any_line two_bytes false following 7 old_file [] []
following-Follows = first-Follows any_line two_bytes fresh 7 old_file 0 refl refl refl

two_bytes-CutsAtCharacters : CutsAtCharacters any_line two_bytes false
two_bytes-CutsAtCharacters [] b h = refl
two_bytes-CutsAtCharacters (c ∷ []) [] h = refl
two_bytes-CutsAtCharacters (c ∷ []) (d ∷ b) h = ground (arith, h)
two_bytes-CutsAtCharacters (c ∷ d ∷ a) b h =
    let after_one = two_bytes-CutsAtCharacters (d ∷ a) b h in
    let after_two = two_bytes-CutsAtCharacters a b h in ground (arith, after_one, after_two)

-- A poll that lands inside a character decodes both halves apart.
halves_apart : two_bytes (195 ∷ []) ++ two_bytes (169 ∷ []) ≡ 65_533 ∷ 65_533 ∷ []
halves_apart = refl

whole_character : two_bytes (195 ∷ 169 ∷ []) ≡ 233 ∷ []
whole_character = refl

polls_follow_example :
    Follows any_line two_bytes false
      (poll_once any_line two_bytes false
        (polls any_line two_bytes false following 7 old_file [] later_steps)
        (disk_of readable 7 (old_file ++ (([] ++ written later_steps) ++ (10 ∷ []))))
        750)
      7
      old_file
      (([] ++ written later_steps) ++ (10 ∷ []))
      []
polls_follow_example =
    polls_follow any_line two_bytes false two_bytes-CutsAtCharacters following 7 old_file []
      (10 ∷ []) [] later_steps 750 refl refl following-Follows

on_seven : following.inode ≡ some 7
unfolding poll_once
on_seven = refl

restarts_anew_example :
    Follows any_line two_bytes false
      (poll_once any_line two_bytes false following (disk_of readable 8 (66 ∷ 10 ∷ [])) 250)
      8
      []
      (66 ∷ 10 ∷ [])
      following.handed
restarts_anew_example =
    restarts_anew any_line two_bytes false following 8 7 (66 ∷ 10 ∷ []) 250 refl on_seven (inl refl)

first-Follows_example :
    Follows any_line two_bytes false
      (poll_once any_line two_bytes false fresh (disk_of readable 7 old_file) 0)
      7
      old_file
      []
      []
first-Follows_example = first-Follows any_line two_bytes fresh 7 old_file 0 refl refl refl
