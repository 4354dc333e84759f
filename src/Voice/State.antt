-- ===== src/Voice/State.antt =====
-- main/voice/session.ts: the state of the voice session and the helpers of its closure. What the
-- closure keeps is a record; directives that reach the window stand in `sent`, everything else that a
-- call does outside stands in `out`. A function that awaits is two steps: `minting` are the requests
-- for a secret that wait, and `calls` the tool calls. A timer has a number, of those that were armed,
-- and `timers` are those that run. `listeners` is how many listen.
use riki.Prelude.{
  ℕ, ◌+◌, Bool, true, false, not, ◌||◌, List, [], ◌∷◌, ◌++◌, Option, none, some, String, ◌==◌,
  filter, if◌then◌else◌, same,
}
use riki.Voice.Messages.{
  VoiceFaultKind, ToolAnswer, VoiceDirective, VoiceSessionState, VoiceSessionState-discrete,
  VoiceEvent,
}

pub data RenewalReason : Type 0 where
  age lost : RenewalReason

pub data RenewalPhase : Type 0 where
  started opened retrying gave_up : RenewalPhase

-- The texts of a renewal: of the window or of the mint, or of the session itself with their numbers.
pub data Detail : Type 0 where
  said : String → Detail
  minutes_old attempts : ℕ → Detail
  sent_unawaited : Detail
  not_ready_within : ℕ → Detail
  next_attempt : Detail → ℕ → ℕ → Detail

-- Why a secret is asked for.
pub data Purpose : Type 0 where
  opening : Purpose
  renewing_for : RenewalReason → Purpose

pub record Mint : Type 0 where
  pub instructions : String
  pub purpose : Purpose

-- What a timer does when it fires.
pub data Deadline : Type 0 where
  scheduled : Deadline
  awaiting_ready retry : String → Deadline

pub record Timer : Type 0 where
  pub number : ℕ
  pub delay : ℕ
  pub deadline : Deadline

-- A tool call that is not answered yet: its answer is known, or the dispatcher works on it.
pub data Call : Type 0 where
  answered : String → ToolAnswer → Call
  dispatched : String → String → Call

pub data Output : Type 0 where
  window_created window_closed : Output
  reports_state : VoiceSessionState → Output
  reports_fault : VoiceFaultKind → Detail → Output
  reports_renewal : RenewalPhase → RenewalReason → Detail → Output
  reports_speaking : String → Bool → Output
  reports_rejection : String → String → Output
  reports_problem : String → Output
  emits : ℕ → VoiceEvent → Output
  tells : ℕ → VoiceFaultKind → Detail → Bool → Output
  asks_secret : String → Output
  dispatches : String → String → Output

pub record VoiceSession : Type 0 where
  pub window : Bool
  pub window_ready : Bool
  pub queued : List VoiceDirective
  pub sent : List VoiceDirective
  pub state : VoiceSessionState
  pub disposed : Bool
  pub disposing : Bool
  pub listeners : ℕ
  pub open_instructions : Option String
  pub renewing : Bool
  pub renew_attempt : ℕ
  pub renew_reason : Option RenewalReason
  pub renew_timer : Option ℕ
  pub timers : List Timer
  pub timers_made : ℕ
  pub minting : List Mint
  pub calls : List Call
  pub turn_counter : ℕ
  pub out : List Output

abbrev pub report : VoiceSession → List Output → VoiceSession
report s outputs = record s { out = s.out ++ outputs }

unfoldable pub set_state : VoiceSession → VoiceSessionState → VoiceSession
set_state s next =
    if same VoiceSessionState-discrete s.state next
    then s
    else report (record s { state = next }) (reports_state next ∷ [])

-- `raise`: the fault that the listeners are told is persistent when it is not retryable.
unfoldable pub raise : VoiceSession → VoiceFaultKind → Detail → Bool → VoiceSession
raise s kind message retryable =
    report s (reports_fault kind message ∷ tells s.listeners kind message retryable ∷ [])

unfoldable pub send : VoiceSession → VoiceDirective → VoiceSession
send s directive =
    if not s.window
    then s
    else if not s.window_ready
    then record s { queued = s.queued ++ directive ∷ [] }
    else record s { sent = s.sent ++ directive ∷ [] }

unfoldable pub on_ready : VoiceSession → VoiceSession
on_ready s = record s {
  window_ready = true;
  queued = [];
  sent = if s.window then s.sent ++ s.queued else s.sent;
}

abbrev pub is_some {ℓ} : {A : Type ℓ} → Option A → Bool
is_some none = false
is_some (some x) = true

abbrev pub or_lost : Option RenewalReason → RenewalReason
or_lost none = lost
or_lost (some reason) = reason

abbrev pub without_timer : Option ℕ → List Timer → List Timer
without_timer none timers = timers
without_timer (some n) timers = filter (λ t. not (t.number == n)) timers

-- `cancelRenewTimer?.(); cancelRenewTimer = null`
unfoldable pub cancel_renew_timer : VoiceSession → VoiceSession
cancel_renew_timer s = record s {
  renew_timer = none;
  timers = without_timer s.renew_timer s.timers;
}

-- `cancelRenewTimer = timers.after(delay, …)`
unfoldable pub arm : VoiceSession → ℕ → Deadline → VoiceSession
arm s delay deadline = record s {
  renew_timer = some s.timers_made;
  timers = s.timers ++ (record { number = s.timers_made; delay = delay; deadline = deadline }) ∷ [];
  timers_made = s.timers_made + 1;
}

unfoldable pub ensure_window : VoiceSession → VoiceSession
ensure_window s =
    if s.disposed || s.window
    then s
    else report (record s { window = true; window_ready = false }) (window_created ∷ [])

unfoldable pub stop_renewal : VoiceSession → VoiceSession
unfolding cancel_renew_timer
stop_renewal s = record (cancel_renew_timer s) {
  open_instructions = none;
  renewing = false;
  renew_attempt = 0;
  renew_reason = none;
}

-- `sendOpen` up to the await. Both callers have looked for the broker.
unfoldable pub ask_secret : VoiceSession → String → Purpose → VoiceSession
ask_secret s instructions purpose =
    report
      (record s {
        minting = s.minting ++ (record { instructions = instructions; purpose = purpose }) ∷ [];
      })
      (asks_secret instructions ∷ [])
