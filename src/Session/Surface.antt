-- ===== src/Session/Surface.antt =====
-- What the sinks of session/contracts.ts show after the calls of the runtime, as a specification
-- apart from the machine. Each sink keeps what it was last told; the clock keeps one timer for each
-- id.
pub mod Trace
pub mod Moves
pub mod Composites
pub mod Inputs
pub mod Timers
pub mod Reordering
pub mod Refinement
pub mod Handled
pub mod Runs
mod Tests
use riki.Prelude.{ℕ, ◌+◌, Bool, true, false, List, [], ◌∷◌, ◌++◌, Option, some, if◌then◌else◌}
use riki.Session.Types.{
  TimerId, PendingTimer, Phase, idle, armed, listening, speaking, MachineState, MachineInput,
  LevelSource, input, output, Effect,
}
use riki.Session.Draft.{without}
use riki.Session.Projection.{ChipViewModel, TrayGlyph}
use riki.Session.Runtime.{
  Call, set_visible, set_tray, cancel_all, set_levels, send, transition, notify, perform_all,
}

pub record Surface : Type 0 where
  pub timers : List PendingTimer
  pub ducked : Bool
  pub meter : Option LevelSource
  pub visible : Bool
  pub chip_revision : ℕ

unfoldable pub absorb : ℕ → Surface → Call → Surface
absorb now w (set_visible visible hold_ms) = record w { visible = visible }
absorb now w (Call.project model) = record w { chip_revision = model.revision }
absorb now w (Call.schedule id delay_ms) = record w {
  timers = without id w.timers ++ (record { id = id; due_at = now + delay_ms }) ∷ [];
}
absorb now w (Call.cancel id) = record w { timers = without id w.timers }
absorb now w cancel_all = record w { timers = [] }
absorb now w (set_levels running source) = record w {
  meter = if running then some source else Option.none;
}
absorb now w (Call.duck on) = record w { ducked = on }
absorb now w _ = w

unfoldable pub absorb_all : ℕ → Surface → List Call → Surface
absorb_all now w [] = w
absorb_all now w (c ∷ cs) = absorb_all now (absorb now w c) cs

-- A timer that fires is no longer running.
unfoldable pub fire : MachineInput → Surface → Surface
fire (MachineInput.timer id) w = record w { timers = without id w.timers }
fire _ w = w

-- The meter runs while the microphone is open and while Riki speaks.
abbrev pub meter_of : Phase → Option LevelSource
meter_of (armed gesture) = some input
meter_of (listening gesture silent_since) = some input
meter_of speaking = some output
meter_of _ = Option.none

-- The window shows everything but Idle; muted, it shows Idle too.
abbrev pub visible_of : Phase → Bool → Bool
visible_of idle muted = muted
visible_of _ muted = true
