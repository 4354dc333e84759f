-- ===== src/Session/Invariant.antt =====
-- The invariant of the state of session/machine.ts between two inputs.
pub mod Fields
pub mod Preserved
pub mod Step
use riki.Prelude.{
  ℕ, ◌≡◌, ◌⊎◌, ◌&&◌, not, Bool, true, false, List, [], ◌∷◌, Option, none, some, any, map, same,
  if◌then◌else◌,
}
use riki.Session.Types.{
  FaultKind, FaultKind-discrete, TimerId, silence_nudge, listen_timeout, elapsed_hint, cancel_hint,
  error_dismiss, PendingTimer, Phase, idle, armed, listening, processing, speaking, MachineState,
}
use riki.Session.Draft.{is_latch, was_reported}

abbrev pub ids : List PendingTimer → List TimerId
ids [] = []
ids (t ∷ ts) = t.id ∷ ids ts

-- The timers that a phase has pending. The listening timeout runs through Armed and Listening, and
-- a passing error has its dismissal scheduled.
abbrev pub TimersFit : Phase → List TimerId → Type 0
TimersFit idle ts = ts ≡ []
TimersFit (armed gesture) ts = ts ≡ listen_timeout ∷ []
TimersFit (listening gesture none) ts = ts ≡ listen_timeout ∷ []
TimersFit (listening gesture (some t)) ts =
    (ts ≡ listen_timeout ∷ []) ⊎ (ts ≡ listen_timeout ∷ silence_nudge ∷ [])
TimersFit (processing t) ts =
    (ts ≡ [])
    ⊎ (ts ≡ elapsed_hint ∷ [])
    ⊎ (ts ≡ cancel_hint ∷ [])
    ⊎ (ts ≡ elapsed_hint ∷ cancel_hint ∷ [])
TimersFit speaking ts = ts ≡ []
TimersFit (Phase.error fault) ts = ts ≡ (if fault.persistent then [] else error_dismiss ∷ [])

-- While muted no capture is open and no turn is being processed.
abbrev pub is_quiet : Phase → Bool
is_quiet idle = true
is_quiet speaking = true
is_quiet (Phase.error fault) = true
is_quiet _ = false

-- `latched` says how an open capture ends.
abbrev pub LatchFits : Phase → Bool → Type 0
LatchFits idle latched = latched ≡ false
LatchFits (armed gesture) latched = latched ≡ is_latch gesture
LatchFits (listening gesture t) latched = latched ≡ is_latch gesture
LatchFits (Phase.error fault) latched = latched ≡ false
LatchFits _ latched = Unit {0}

abbrev pub is_nodup : List FaultKind → Bool
is_nodup [] = true
is_nodup (k ∷ ks) = not (was_reported ks k) && is_nodup ks

pub record IsValid (s : MachineState) : Type 0 where
  pub timers_fit : TimersFit s.phase (ids s.pending)
  pub muted_quiet : s.muted ≡ true → is_quiet s.phase ≡ true
  pub latch_fits : LatchFits s.phase s.latched
  pub reported_once : is_nodup s.reported ≡ true
