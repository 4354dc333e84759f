-- ===== src/Trigger/Recognizer.antt =====
-- trigger/recognizer.ts: the tap/hold gesture. The closure's `phase` is the state, the threshold a
-- parameter, and each handler returns the new phase and the events that it emits. The comparison
-- of an elapsed time with the threshold is written as a sum.
use riki.Prelude.{ℕ, ◌+◌, List, [], ◌∷◌, ltb, if◌then◌else◌}
use riki.Session.Types.{TriggerEvent, down, up, tap}

pub data Phase : Type 0 where
  idle : Phase
  deciding : ℕ → Phase
  pushing : Phase
  latched : Phase

abbrev pub default_hold_threshold_ms : ℕ
default_hold_threshold_ms = 250

abbrev pub Emits : Type 0
Emits = Phase × List TriggerEvent

unfoldable pub key_down : Phase → ℕ → Emits
key_down idle now = (deciding now, [])
key_down latched now = (deciding now, [])
key_down (deciding down_at) now = (deciding down_at, [])
key_down pushing now = (pushing, [])

unfoldable pub key_up : ℕ → Phase → ℕ → Emits
key_up threshold (deciding down_at) now =
    if ltb now (down_at + threshold) then (latched, tap ∷ []) else (idle, down ∷ up ∷ [])
key_up threshold pushing now = (idle, up ∷ [])
key_up threshold latched now = (latched, [])
key_up threshold idle now = (idle, [])

unfoldable pub tick : ℕ → Phase → ℕ → Emits
tick threshold (deciding down_at) now =
    if ltb now (down_at + threshold) then (deciding down_at, []) else (pushing, down ∷ [])
tick threshold phase now = (phase, [])

unfoldable pub reset : Phase → Phase
reset phase = idle

-- The calls of a recognizer, with their times.
pub data KeyCall : Type 0 where
  pressed released polled : ℕ → KeyCall
  resets : KeyCall

unfoldable pub handle : ℕ → Phase → KeyCall → Emits
unfolding key_down key_up tick reset
handle threshold phase (pressed now) = key_down phase now
handle threshold phase (released now) = key_up threshold phase now
handle threshold phase (polled now) = tick threshold phase now
handle threshold phase resets = (reset phase, [])
