-- ===== src/Trigger/Gestures.antt =====
-- What the recognizer makes of whole presses, and of any history of calls.
use riki.Prelude.{
  ℕ, ◌+◌, ◌≤◌, ◌≡◌, ◌⊎◌, refl, ap, sym, ◌∙◌, Bool, true, false, List, [], ◌∷◌, ◌++◌, append_assoc,
  ◌≢◌, arith, if◌then◌else◌, ltb, inl,
}
use riki.Session.Types.{TriggerEvent, down, up, tap}
use riki.Trigger.Recognizer.{
  Phase, idle, deciding, pushing, latched, KeyCall, pressed, released, polled, resets, Emits,
  handle,
}

-- Everything that a list of calls emits, and the phase that it ends in.
unfoldable pub handle_all : ℕ → Phase → List KeyCall → Emits
handle_all threshold phase [] = (phase, [])
handle_all threshold phase (c ∷ cs) =
    let (next, events) = handle threshold phase c in
    let (last, later) = handle_all threshold next cs in (last, events ++ later)

-- What may happen while the key is down: key repeat and polling, at times up to `until`.
abbrev pub MeanwhileUntil : ℕ → List KeyCall → Type 0
MeanwhileUntil until [] = Unit {0}
MeanwhileUntil until (pressed now ∷ cs) = (now ≤ until) × MeanwhileUntil until cs
MeanwhileUntil until (polled now ∷ cs) = (now ≤ until) × MeanwhileUntil until cs
MeanwhileUntil until (_ ∷ cs) = ⊥

handle_all-append :
    (threshold : ℕ) (phase : Phase) (xs ys : List KeyCall)
    → let (mid, events) = handle_all threshold phase xs in
      let (last, later) = handle_all threshold mid ys in
      handle_all threshold phase (xs ++ ys) ≡ (last, events ++ later)
unfolding handle_all
handle_all-append threshold phase [] ys = refl
handle_all-append threshold phase (x ∷ xs) ys =
    let (next, events) = handle threshold phase x in
    let (mid, more) = handle_all threshold next xs in
    let (last, later) = handle_all threshold mid ys in
    ap {B = Emits} (λ p. (p.0, events ++ p.1)) (handle_all-append threshold next xs ys)
    ∙ ap {B = Emits} (λ es. (last, es)) (sym (append_assoc events more later))

pushing_stays :
    (threshold until : ℕ) (cs : List KeyCall)
    → MeanwhileUntil until cs
    → handle_all threshold pushing cs ≡ (pushing, [])
unfolding handle_all handle
pushing_stays threshold until [] m = refl
pushing_stays threshold until (pressed now ∷ cs) m =
    ground (arith, pushing_stays threshold until cs m.1)
pushing_stays threshold until (polled now ∷ cs) m =
    ground (arith, pushing_stays threshold until cs m.1)
pushing_stays threshold until (released now ∷ cs) m = absurd m
pushing_stays threshold until (resets ∷ cs) m = absurd m

-- While the key is down the recognizer decides or, once a poll has found the threshold passed,
-- pushes, with `down` emitted once.
deciding_stays :
    (threshold down_at until : ℕ) (cs : List KeyCall)
    → MeanwhileUntil until cs
    → (handle_all threshold (deciding down_at) cs ≡ (deciding down_at, []))
      ⊎ ((handle_all threshold (deciding down_at) cs ≡ (pushing, down ∷ []))
          × (down_at + threshold ≤ until))
unfolding handle_all handle
deciding_stays threshold down_at until [] m = inl refl
deciding_stays threshold down_at until (pressed now ∷ cs) m =
    ground (arith, deciding_stays threshold down_at until cs m.1)
deciding_stays threshold down_at until (polled now ∷ cs) m =
    ground
      (arith, deciding_stays threshold down_at until cs m.1, pushing_stays threshold until cs m.1)
deciding_stays threshold down_at until (released now ∷ cs) m = absurd m
deciding_stays threshold down_at until (resets ∷ cs) m = absurd m

abbrev pub is_up : Phase → Bool
is_up idle = true
is_up latched = true
is_up _ = false

-- One press, from the key going down to its release, with any key repeat and polling meanwhile:
-- released before the threshold it emits exactly a tap and latches; held past it, exactly a `down`
-- and an `up`, whether or not a poll came in time.
pub press_is_gesture :
    (threshold : ℕ) (phase : Phase) (down_at up_at : ℕ) (cs : List KeyCall)
    → is_up phase ≡ true
    → MeanwhileUntil up_at cs
    → handle_all threshold phase (pressed down_at ∷ cs ++ released up_at ∷ [])
      ≡ (if ltb up_at (down_at + threshold) then (latched, tap ∷ []) else (idle, down ∷ up ∷ []))
unfolding handle_all handle
press_is_gesture threshold idle down_at up_at cs u m = ground (
  arith,
  handle_all-append threshold (deciding down_at) cs (released up_at ∷ []),
  deciding_stays threshold down_at up_at cs m,
)
press_is_gesture threshold latched down_at up_at cs u m = ground (
  arith,
  handle_all-append threshold (deciding down_at) cs (released up_at ∷ []),
  deciding_stays threshold down_at up_at cs m,
)
press_is_gesture threshold _ down_at up_at cs u m = cc

-- The events that a reader may see next: an `up` only after a `down`, and then nothing else.
abbrev pub WellFormed : Bool → List TriggerEvent → Bool → Type 0
WellFormed held [] after = held ≡ after
WellFormed held (down ∷ es) after = (held ≡ false) × WellFormed true es after
WellFormed held (up ∷ es) after = (held ≡ true) × WellFormed false es after
WellFormed held (tap ∷ es) after = (held ≡ false) × WellFormed false es after
WellFormed held (TriggerEvent.cancel ∷ es) after = ⊥

abbrev pub is_pushing : Phase → Bool
is_pushing pushing = true
is_pushing _ = false

WellFormed-append :
    (a b c : Bool) (xs ys : List TriggerEvent)
    → WellFormed a xs b
    → WellFormed b ys c
    → WellFormed a (xs ++ ys) c
WellFormed-append a b c [] ys h k = rw h k
WellFormed-append a b c (down ∷ xs) ys h k = (h.0, WellFormed-append true b c xs ys h.1 k)
WellFormed-append a b c (up ∷ xs) ys h k = (h.0, WellFormed-append false b c xs ys h.1 k)
WellFormed-append a b c (tap ∷ xs) ys h k = (h.0, WellFormed-append false b c xs ys h.1 k)
WellFormed-append a b c (TriggerEvent.cancel ∷ xs) ys h k = absurd h

handle-WellFormed :
    (threshold : ℕ) (phase : Phase) (c : KeyCall)
    → c ≢ resets
    → let (next, events) = handle threshold phase c in
      WellFormed (is_pushing phase) events (is_pushing next)
unfolding handle
handle-WellFormed threshold phase (pressed now) n = ground arith
handle-WellFormed threshold phase (released now) n = ground arith
handle-WellFormed threshold phase (polled now) n = ground arith
handle-WellFormed threshold phase resets n = absurd (n refl)

abbrev pub NoReset : List KeyCall → Type 0
NoReset [] = Unit {0}
NoReset (resets ∷ cs) = ⊥
NoReset (_ ∷ cs) = NoReset cs

-- Between two resets, whatever calls come at whatever times, each `up` follows a `down`, a `down`
-- or a tap comes only with none open, and a `down` is open at the end exactly in `pushing`.
pub handle_all-WellFormed :
    (threshold : ℕ) (phase : Phase) (cs : List KeyCall)
    → NoReset cs
    → let (last, events) = handle_all threshold phase cs in
      WellFormed (is_pushing phase) events (is_pushing last)
unfolding handle_all
handle_all-WellFormed threshold phase [] n = refl
handle_all-WellFormed threshold phase (pressed now ∷ cs) n =
    let (next, events) = handle threshold phase (pressed now) in
    let (last, later) = handle_all threshold next cs in
    WellFormed-append (is_pushing phase) (is_pushing next) (is_pushing last) events later
      (handle-WellFormed threshold phase (pressed now) (λ e. cc))
      (handle_all-WellFormed threshold next cs n)
handle_all-WellFormed threshold phase (released now ∷ cs) n =
    let (next, events) = handle threshold phase (released now) in
    let (last, later) = handle_all threshold next cs in
    WellFormed-append (is_pushing phase) (is_pushing next) (is_pushing last) events later
      (handle-WellFormed threshold phase (released now) (λ e. cc))
      (handle_all-WellFormed threshold next cs n)
handle_all-WellFormed threshold phase (polled now ∷ cs) n =
    let (next, events) = handle threshold phase (polled now) in
    let (last, later) = handle_all threshold next cs in
    WellFormed-append (is_pushing phase) (is_pushing next) (is_pushing last) events later
      (handle-WellFormed threshold phase (polled now) (λ e. cc))
      (handle_all-WellFormed threshold next cs n)
handle_all-WellFormed threshold phase (resets ∷ cs) n = absurd n
