-- ===== src/Overlay/LevelPump.antt =====
-- main/overlay/level-pump.ts: frames of the level bars, at most one in `interval` milliseconds. A frame
-- that the pump sends is the result; `now` is what the clock says.
use riki.Prelude.{
  ℕ, ◌+◌, ◌≤◌, ◌≡◌, sym, subst, ap, Bool, false, not, ◌||◌, List, [], ◌∷◌, Option, none, some,
  arith, if◌then◌else◌, same, ltb, Option-cases, ◌⊎◌, inl, inr,
}
use riki.Session.Types.{LevelSource}

unfoldable pub LevelSource-discrete : Discrete LevelSource
LevelSource-discrete = hlevel

pub record LevelFrame : Type 0 where
  pub source : LevelSource
  pub value : ℕ
  pub at : ℕ
  pub revision : ℕ

pub record LevelPump : Type 0 where
  pub shows_source : Option LevelSource
  pub last_sent_at : Option ℕ

unfoldable pub start_pump : LevelPump → LevelSource → LevelPump
start_pump p next = record { shows_source = some next; last_sent_at = none }

unfoldable pub stop_pump : LevelPump → LevelPump
stop_pump p = record { shows_source = none; last_sent_at = none }

abbrev pub is_source : Option LevelSource → LevelSource → Bool
is_source none source = false
is_source (some s) source = same LevelSource-discrete source s

-- `now - lastSentAt < interval`
abbrev pub too_soon : ℕ → Option ℕ → ℕ → Bool
too_soon interval none now = false
too_soon interval (some last) now = ltb now (last + interval)

unfoldable pub on_frame : ℕ → LevelPump → ℕ → LevelFrame → LevelPump × List LevelFrame
on_frame interval p now frame =
    if not (is_source p.shows_source frame.source) || too_soon interval p.last_sent_at now
    then (p, [])
    else (record p { last_sent_at = some now }, frame ∷ [])

-- The frames that arrive, with their times, and the times at which one is sent.
unfoldable pub send_times : ℕ → LevelPump → List (ℕ × LevelFrame) → List ℕ
send_times interval p [] = []
send_times interval p ((now, frame) ∷ frames) =
    let (p', sent) = on_frame interval p now frame in
    let times = send_times interval p' frames in elim sent [ [] ↦ times | f ∷ fs ↦ now ∷ times ]

-- The first is no sooner than `from`, and each other no sooner than `interval` after the one before.
pub Spaced : ℕ → ℕ → List ℕ → Type 0
Spaced interval from [] = Unit
Spaced interval from (t ∷ ts) = (from ≤ t) × Spaced interval (t + interval) ts

abbrev earliest : ℕ → Option ℕ → ℕ
earliest interval none = 0
earliest interval (some last) = last + interval

on_frame-cases :
    (interval : ℕ) (p : LevelPump) (now : ℕ) (frame : LevelFrame)
    → (on_frame interval p now frame ≡ (p, []))
      ⊎ ((on_frame interval p now frame ≡ (record p { last_sent_at = some now }, frame ∷ []))
          × (earliest interval p.last_sent_at ≤ now))
unfolding on_frame
on_frame-cases interval p now frame = ground (arith, Option-cases p.last_sent_at)

send_times-skip :
    (interval : ℕ) (p : LevelPump) (now : ℕ) (frame : LevelFrame) (frames : List (ℕ × LevelFrame))
    → on_frame interval p now frame ≡ (p, [])
    → send_times interval p ((now, frame) ∷ frames) ≡ send_times interval p frames
unfolding send_times
send_times-skip interval p now frame frames e =
    rw (send_times, e) (ap (λ r. send_times interval r.0 frames) e)

send_times-send :
    (interval : ℕ) (p p' : LevelPump) (now : ℕ) (frame : LevelFrame)
    (frames : List (ℕ × LevelFrame))
    → on_frame interval p now frame ≡ (p', frame ∷ [])
    → send_times interval p ((now, frame) ∷ frames) ≡ now ∷ send_times interval p' frames
unfolding send_times
send_times-send interval p p' now frame frames e =
    rw (send_times, e) (ap (λ r. now ∷ send_times interval r.0 frames) e)

-- Whatever frames arrive and whenever, the times at which one is sent are at least the interval apart,
-- also from the one that was sent before.
pub send_times-Spaced :
    (interval : ℕ) (p : LevelPump) (frames : List (ℕ × LevelFrame))
    → Spaced interval (earliest interval p.last_sent_at) (send_times interval p frames)
unfolding Spaced send_times
send_times-Spaced interval p [] = tt
send_times-Spaced interval p ((now, frame) ∷ frames) = elim (on_frame-cases interval p now frame) [
  | inl e ↦
      subst (Spaced interval (earliest interval p.last_sent_at))
        (sym (send_times-skip interval p now frame frames e)) (send_times-Spaced interval p frames)
  | inr (e, h) ↦
      let p' : LevelPump = record p { last_sent_at = some now } in
      subst (Spaced interval (earliest interval p.last_sent_at))
        (sym (send_times-send interval p p' now frame frames e))
        (h, send_times-Spaced interval p' frames)
]
