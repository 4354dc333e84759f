-- ===== src/Voice/Messages.antt =====
-- What crosses between the main process and the voice window: schemas/voice.ts in protocol, the
-- faults of realtime's types.ts, and the constants of `sendOpen` in main/voice/session.ts. Text that
-- is only passed on is a `String`; times are natural numbers of milliseconds.
use riki.Prelude.{ℕ, ◌-◌, Bool, true, false, List, Option, none, String}
use riki.Session.Types.{CaptureMode, LevelSource}
use riki.Realtime.Turn.{TurnEndReason}

pub data VoiceFaultKind : Type 0 where
  mic_denied no_input_device offline auth session_lost : VoiceFaultKind

unfoldable pub VoiceFaultKind-discrete : Discrete VoiceFaultKind
VoiceFaultKind-discrete = hlevel

pub record VoiceFault : Type 0 where
  pub kind : VoiceFaultKind
  pub persistent : Bool
  pub message : String
  pub retryable : Bool

pub record ClientSecret : Type 0 where
  pub value : String
  pub expires_at : ℕ
  pub session_id : String

pub record SessionConfig : Type 0 where
  pub model : String
  pub voice : String
  pub instructions : String
  pub turn_detection : String
  pub create_response : Bool
  pub interrupt_response : Bool
  pub silence_duration_ms : ℕ
  pub noise_reduction : String
  pub transcription_model : String
  pub transcription_language : Option String
  pub truncation_mode : String
  pub retention_percent : ℕ

pub record CaptureRequest : Type 0 where
  pub device_id : Option String
  pub echo_cancellation : Bool
  pub noise_suppression : Bool
  pub auto_gain_control : Bool
  pub pre_roll_ms : ℕ

pub record SessionOpen : Type 0 where
  pub secret : String
  pub expires_in_ms : ℕ
  pub session_id : String
  pub session : SessionConfig
  pub capture : CaptureRequest
  pub transport : String
  pub budget_usd : ℕ
  pub tools : Bool

-- What a tool call is answered with: the dispatcher's result, or one of the three texts of `unknown`.
pub data ToolAnswer : Type 0 where
  result : String → ToolAnswer
  not_wired not_understood : String → ToolAnswer
  could_not_answer : String → String → ToolAnswer

pub data VoiceDirective : Type 0 where
  session_open : SessionOpen → VoiceDirective
  session_close : String → VoiceDirective
  turn_begin : String → CaptureMode → VoiceDirective
  turn_end : String → TurnEndReason → String → VoiceDirective
  turn_speak : String → String → VoiceDirective
  command_abort : VoiceDirective
  level_enable : Bool → VoiceDirective
  tool_result : String → ToolAnswer → VoiceDirective

pub data VoiceSessionState : Type 0 where
  idle connecting ready degraded unavailable : VoiceSessionState

unfoldable pub VoiceSessionState-discrete : Discrete VoiceSessionState
VoiceSessionState-discrete = hlevel

-- An event of the voice window; `passed` is one of the kinds that the session only passes on. A level
-- comes without a time and leaves with one.
pub data WindowEvent : Type 0 where
  level : LevelSource → ℕ → WindowEvent
  fault : VoiceFault → WindowEvent
  passed : String → WindowEvent

pub data VoiceEvent : Type 0 where
  timed_level : LevelSource → ℕ → ℕ → VoiceEvent
  raised : VoiceFault → VoiceEvent
  relayed : String → VoiceEvent

pub data VoiceUpdate : Type 0 where
  voice_ready : VoiceUpdate
  event : WindowEvent → VoiceUpdate
  session_state : VoiceSessionState → VoiceUpdate
  tool_call : String → String → String → VoiceUpdate
  tool_rejected : String → String → VoiceUpdate
  window_applied : VoiceUpdate

-- What the session reads of the app's configuration and of its dependencies.
pub record VoiceConfig : Type 0 where
  pub has_key : Bool
  pub has_timers : Bool
  pub has_tools : Bool
  pub renew_after_ms : ℕ
  pub backoff_ms : List ℕ
  pub ready_timeout_ms : ℕ
  pub model : String
  pub voice : String
  pub device_id : Option String
  pub pre_roll_ms : ℕ
  pub transport : String
  pub budget_usd : ℕ

unfoldable pub session_config : VoiceConfig → String → SessionConfig
session_config cfg instructions = record {
  model = cfg.model;
  voice = cfg.voice;
  instructions = instructions;
  turn_detection = "server_vad";
  create_response = false;
  interrupt_response = true;
  silence_duration_ms = 200;
  noise_reduction = "near_field";
  transcription_model = "gpt-4o-mini-transcribe";
  transcription_language = none;
  truncation_mode = "auto";
  retention_percent = 80;
}

unfoldable pub open_directive : VoiceConfig → ℕ → String → ClientSecret → SessionOpen
open_directive cfg now instructions secret = record {
  secret = secret.value;
  expires_in_ms = secret.expires_at - now;
  session_id = secret.session_id;
  session = session_config cfg instructions;
  capture = record {
    device_id = cfg.device_id;
    echo_cancellation = true;
    noise_suppression = true;
    auto_gain_control = true;
    pre_roll_ms = cfg.pre_roll_ms;
  };
  transport = cfg.transport;
  budget_usd = cfg.budget_usd;
  tools = cfg.has_tools;
}
