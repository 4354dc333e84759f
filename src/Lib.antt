-- ===== src/Lib.antt =====
-- Verification library of Riki, the voice agent that watches a Dota 2 match.
--
-- The program. The desktop process (apps/desktop) holds a push-to-talk key, a small overlay chip, a
-- tray icon and a voice session. The key's edges become gestures (main/trigger/recognizer.ts),
-- which with the events of capture, speech, turns and timers are the inputs of one interaction
-- machine (main/session/machine.ts). The machine returns a new state and a list of effects; the
-- session runtime (main/session/runtime.ts) takes inputs from a queue and hands each effect to a
-- sink: overlay window, tray, voice, audio, telemetry, and the clock, whose timers come back as
-- inputs. The voice side (packages/realtime) turns gestures into requests of the model (turn.ts)
-- and carries out the plans that remove old items from its context window (window.ts). The main
-- process opens its session for a match and renews it (main/voice/session.ts), and a presenter
-- (main/overlay) puts the chip on the screen. What the model is told comes from the world model
-- (packages/world-model): observations of the game client, its log, screen capture and an API are
-- read into candidate facts, which a reducer fuses into one state under rules of precedence,
-- confidence and recency, and which ages (fusion/staleness.ts). For a turn it is rendered into
-- sections under a budget of tokens (packages/context). A supervisor (main/state/supervisor.ts)
-- starts the sources of observations and restarts those that exit, and a controller
-- (main/state/degradation.ts) turns their health into a level of degradation. The sources, of which
-- the tailer of the game's log (packages/log-tail) is one, publish on a bus (main/state/bus.ts),
-- which hands each observation to the store of the world model. A recording of the model can be
-- read back at any instant (packages/world-model/src/timeline).
--
-- Which file models what.
--   Prelude           Boolean tests, list operations and integers that the other modules share.
--   Session.Types     session/types.ts and timing.ts: phases, inputs, effects, the machine's state.
--   Session.Draft     machine.ts: the draft of a transition, the emitters (show, hide, schedule,
--                     cancel, ...) and the composite transitions (enter, toIdle, bargeIn, ...).
--   Session.Machine   machine.ts: `reduce` and one handler for each kind of input.
--   Session.Projection  machine.ts: `projectChip`, `projectTray`, with shared/overlay.ts.
--   Session.Runtime   runtime.ts: `step`, `perform`, `dispatch` with its queue, `dispose`.
--   Session.Invariant, Session.Behaviour, Session.Surface and their children hold the invariant, the
--                     behaviour the player meets, and the sinks seen as a specification.
--   Trigger.Recognizer  main/trigger/recognizer.ts.
--   World.Fact        packages/world-model/src/fact.ts.
--   World.History     history/ring.ts.
--   World.Path, World.State  state.ts: field paths, and reading and writing of leaves.
--   World.Precedence  fusion/precedence.ts.
--   World.Fusion      fusion/reducer.ts, with fusion/confidence.ts and fusion/candidate.ts.
--   World.Staleness   fusion/staleness.ts.
--   World.Record      record/format.ts: the lines of a recording.
--   World.Store       store.ts, with history/delta.ts.
--   World.Recorder    record/recorder.ts, and from apps/desktop/src/main/state/index.ts what an
--                     observation and an event of a match do to the store and the recorder.
--   World.Timeline    timeline/reader.ts: the searches, and in Reader the replay and the answers.
--   Realtime.Turn     packages/realtime/src/turn.ts.
--   Realtime.Window   packages/realtime/src/window.ts.
--   Context.Compose   packages/context/src/render/compose.ts.
--   Context.Ladder    packages/context/src/snapshot/ladder.ts.
--   Context.Renderer  packages/context/src/snapshot/renderer.ts.
--   Sources.Supervisor  apps/desktop/src/main/state/supervisor.ts.
--   Sources.Degradation  apps/desktop/src/main/state/degradation.ts.
--   Sources.Bus       apps/desktop/src/main/state/bus.ts.
--   Sources.MatchSession  packages/gsi/src/session.ts.
--   Sources.Tailer    packages/log-tail/src/tailer.ts.
--   Voice.Messages    packages/protocol/src/schemas/voice.ts, with faults and events of
--                     packages/realtime/src/types.ts.
--   Voice.State, Voice.Renewal, Voice.Updates, Voice.Session  apps/desktop/src/main/voice/session.ts:
--                     its state, the renewal, the updates of its window, and the calls and timers.
--   Overlay.Window    apps/desktop/src/main/overlay/window.ts.
--   Overlay.LevelPump, Overlay.Presenter  level-pump.ts and presenter.ts beside it.
-- The children named Tests evaluate the definitions on concrete inputs.
--
-- How code is modelled. A closure's variables are a record, a call returns the new record, and what
-- it sends to others is a list, in order. Statements that mutate the machine's draft are functions
-- that return it. Wall times, durations and counts are natural numbers; where the code compares a
-- difference of times with a bound, the model compares sums, since subtraction on natural numbers
-- stops at 0. The match clock, negative before the horn, is an integer. A confidence is a natural
-- number of millionths, and the code only compares confidences and takes their minimum. A field
-- path is the list of its segments, and maps and records of optional facts are functions of the
-- key, or an association list where the code iterates over the map. An `await` splits a function in
-- two steps with other calls between them, except that a poll of the log's tailer is one step. The
-- supervisor's sources and timers are events, in any order, and so are the secrets, tool calls and
-- timers that the voice session waits for.
--
-- Fuel. `dispatch` of the runtime loops while its queue is not empty, and what it calls may
-- dispatch again. The loop takes fuel, and the callees are a parameter. Fuel above a measure of the
-- queued inputs is enough when every callee dispatches inputs of a smaller measure; callees that go
-- on dispatching for ever keep the code in its loop too. The closure of drops and the loop of the
-- snapshot's renderer take fuel too, which their callers give from the sizes of their arguments;
-- their theorems say that it is enough, and so do the two binary searches of the timeline. The bus
-- loops while subscribers publish during a delivery, and takes fuel as the runtime does. No other
-- definition takes fuel.
--
-- Not modelled. Calls of Electron, Web Audio, WebRTC, WebSocket and HTTP, which are outside the
-- repository; the schemas, which are declarations for a library; the Rust crates; the readers that
-- turn payloads into candidates; the text of a recording, and what a keyframe keeps of the facts.
-- Store, recorder and timeline take the facts as a type with operations on it. The chat ring is
-- part of a state here, while in the code all versions of the state share one ring. The overlay's
-- renderer and the arithmetic of its placement, audio, the sections of the snapshot, the server of
-- the game state integration and the realtime session of the voice window are left out.
mod Prelude
pub mod Session
pub mod Trigger
pub mod World
pub mod Realtime
pub mod Sources
pub mod Context
pub mod Voice
pub mod Overlay
