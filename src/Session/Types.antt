-- ===== src/Session/Types.antt =====
-- The machine's vocabulary: session/types.ts, and the constants of session/timing.ts.
-- A string literal union is an enumeration, a tagged union is a data type with the tag as the
-- constructor, and `Millis` is a natural number.
use riki.Prelude.{ℕ, String, Bool, true, false, List, Option}

pub data CaptureMode : Type 0 where
  push latch : CaptureMode

pub data FaultKind : Type 0 where
  mic_denied no_input_device offline auth session_lost no_speech_detected : FaultKind

unfoldable pub FaultKind-discrete : Discrete FaultKind
FaultKind-discrete = hlevel

pub record Fault : Type 0 where
  pub kind : FaultKind
  pub persistent : Bool
  pub message : String

pub data TimerId : Type 0 where
  silence_nudge listen_timeout elapsed_hint cancel_hint error_dismiss hide_hold : TimerId

unfoldable pub TimerId-discrete : Discrete TimerId
TimerId-discrete = hlevel

pub record PendingTimer : Type 0 where
  pub id : TimerId
  pub due_at : ℕ

pub data Phase : Type 0 where
  idle : Phase
  armed : CaptureMode → Phase
  listening : CaptureMode → Option ℕ → Phase
  processing : ℕ → Phase
  speaking : Phase
  error : Fault → Phase

pub record MachineEnvironment : Type 0 where
  pub silence_nudge_ms : ℕ
  pub listen_timeout_ms : ℕ
  pub hold_threshold_ms : ℕ
  pub captions_enabled : Bool
  pub earcons_enabled : Bool
  pub ducking_enabled : Bool

pub record MachineState : Type 0 where
  pub phase : Phase
  pub since : ℕ
  pub muted : Bool
  pub latched : Bool
  pub pending : List PendingTimer
  pub reported : List FaultKind
  pub env : MachineEnvironment
  pub revision : ℕ

pub data TriggerEvent : Type 0 where
  down up tap cancel : TriggerEvent

pub data CaptureEvent : Type 0 where
  opened first_audio closed : CaptureEvent

pub data SpeechEvent : Type 0 where
  silence resumed : SpeechEvent

pub data TurnEvent : Type 0 where
  submitted response_started response_ended : TurnEvent

-- The subset of the renderer's intents that reaches the machine: `cancel` alone.
pub data RendererIntent : Type 0 where
  cancel : RendererIntent

pub data MachineInput : Type 0 where
  trigger : TriggerEvent → MachineInput
  capture : CaptureEvent → MachineInput
  speech : SpeechEvent → MachineInput
  turn : TurnEvent → MachineInput
  fault : Fault → MachineInput
  mute : Bool → MachineInput
  settings : MachineEnvironment → MachineInput
  timer : TimerId → MachineInput
  intent : RendererIntent → MachineInput

pub data EarconId : Type 0 where
  capture_start capture_end error : EarconId

pub data VoiceCommand : Type 0 where
  interrupt : ℕ → VoiceCommand
  abort : VoiceCommand

pub data LevelSource : Type 0 where
  input output : LevelSource

pub data Effect : Type 0 where
  window : Bool → Option ℕ → Effect
  project : Effect
  schedule : TimerId → ℕ → Effect
  cancel : TimerId → Effect
  levels : Bool → LevelSource → Effect
  earcon : EarconId → Effect
  duck : Bool → Effect
  voice : VoiceCommand → Effect

pub record Transition : Type 0 where
  pub state : MachineState
  pub effects : List Effect

abbrev pub elapsed_hint_ms : ℕ
elapsed_hint_ms = 2_500

abbrev pub cancel_hint_ms : ℕ
cancel_hint_ms = 10_000

abbrev pub error_dismiss_ms : ℕ
error_dismiss_ms = 4_000

abbrev pub hide_hold_ms : ℕ
hide_hold_ms = 400

abbrev pub enter_ms : ℕ
enter_ms = 80

abbrev pub default_environment : MachineEnvironment
default_environment = record {
  silence_nudge_ms = 1_200;
  listen_timeout_ms = 8_000;
  hold_threshold_ms = 250;
  captions_enabled = false;
  earcons_enabled = true;
  ducking_enabled = true;
}
