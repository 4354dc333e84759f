-- ===== src/Session/Machine.antt =====
-- session/machine.ts, lines 254 to 467: the reducer.
use riki.Prelude.{ℕ, Bool, true, false, not, ◌&&◌, [], ◌∷◌, none, some, if◌then◌else◌}
use riki.Session.Types.{
  CaptureMode, push, latch, Fault, no_speech_detected, TimerId, silence_nudge, listen_timeout,
  elapsed_hint, cancel_hint, error_dismiss, Phase, idle, armed, listening, processing, speaking,
  MachineState, TriggerEvent, down, up, tap, CaptureEvent, opened, first_audio, closed, SpeechEvent,
  silence, resumed, TurnEvent, submitted, response_started, response_ended, RendererIntent,
  MachineInput, capture_end, abort, output, Transition,
}
use riki.Session.Draft.{
  Draft, draft_of, commit, show, hide, project, levels, earcon, voice, schedule, cancel, forget,
  enter, begin_capture, to_processing, to_idle, to_listening, barge_in, raise_fault,
  cancel_interaction,
}

-- Push ends on release; latch ends on the next tap.
abbrev pub ends_gesture : CaptureMode → TriggerEvent → Bool
ends_gesture push up = true
ends_gesture latch tap = true
ends_gesture _ _ = false

-- `event.kind === 'down' || event.kind === 'tap'`
abbrev pub starts_gesture : TriggerEvent → Bool
starts_gesture down = true
starts_gesture tap = true
starts_gesture _ = false

-- `event.kind === 'tap' ? 'latch' : 'push'`
abbrev pub gesture_of : TriggerEvent → CaptureMode
gesture_of tap = latch
gesture_of _ = push

-- The switch on the phase in `applyTrigger`.
unfoldable pub trigger_in : Phase → Draft → TriggerEvent → ℕ → Draft
trigger_in idle d event now =
    if starts_gesture event then begin_capture d (gesture_of event) now else d
trigger_in (armed gesture) d event now =
    if ends_gesture gesture event then to_idle (earcon d capture_end) now else d
trigger_in (listening gesture silent_since) d event now =
    if ends_gesture gesture event then to_processing d now true else d
trigger_in speaking d event now =
    if starts_gesture event then barge_in d (gesture_of event) now else d
trigger_in (processing started_at) d event now =
    if starts_gesture event then begin_capture (voice d abort) (gesture_of event) now else d
trigger_in (Phase.error fault) d event now =
    if starts_gesture event then begin_capture d (gesture_of event) now else d

unfoldable pub apply_trigger : Draft → TriggerEvent → ℕ → Draft
apply_trigger d TriggerEvent.cancel now = cancel_interaction d now
apply_trigger d event now = if d.muted then d else trigger_in d.phase d event now

unfoldable pub first_audio_in : Phase → Draft → ℕ → Draft
first_audio_in (armed gesture) d now =
    project (enter (record d { reported = [] }) (listening gesture none) now (listen_timeout ∷ []))
first_audio_in _ d now = d

unfoldable pub closed_in : Phase → Draft → ℕ → Draft
closed_in (armed gesture) d now = to_idle (earcon d capture_end) now
closed_in (listening gesture silent_since) d now = to_idle (earcon d capture_end) now
closed_in _ d now = d

unfoldable pub apply_capture : Draft → CaptureEvent → ℕ → Draft
unfolding first_audio_in closed_in
apply_capture d opened now = d
apply_capture d first_audio now = first_audio_in d.phase d now
apply_capture d closed now = closed_in d.phase d now

unfoldable pub speech_in : Phase → Draft → SpeechEvent → ℕ → Draft
speech_in (listening gesture none) d silence now =
    schedule (record d { phase = listening gesture (some now) }) silence_nudge
      d.env.silence_nudge_ms now
speech_in (listening gesture (some t)) d resumed now =
    project (cancel (record d { phase = listening gesture none }) silence_nudge)
speech_in _ d _ now = d

unfoldable pub apply_speech : Draft → SpeechEvent → ℕ → Draft
unfolding speech_in
apply_speech d event now = speech_in d.phase d event now

unfoldable pub submitted_in : Phase → Draft → ℕ → Draft
submitted_in (listening gesture silent_since) d now = to_processing d now false
submitted_in _ d now = d

unfoldable pub response_started_in : Phase → Draft → ℕ → Draft
response_started_in idle d now = d
response_started_in speaking d now = d
response_started_in _ d now =
    project (levels (show (enter (record d { reported = [] }) speaking now [])) true output)

unfoldable pub response_ended_in : Phase → Draft → ℕ → Draft
response_ended_in speaking d now =
    if d.latched && not d.muted then to_listening d latch now else to_idle d now
response_ended_in _ d now = d

unfoldable pub apply_turn : Draft → TurnEvent → ℕ → Draft
unfolding submitted_in response_started_in response_ended_in
apply_turn d submitted now = submitted_in d.phase d now
apply_turn d response_started now = response_started_in d.phase d now
apply_turn d response_ended now = response_ended_in d.phase d now

-- `d.muted === muted`
abbrev pub bool_eq : Bool → Bool → Bool
bool_eq true b = b
bool_eq false b = not b

abbrev pub is_idle : Phase → Bool
is_idle idle = true
is_idle _ = false

unfoldable pub apply_mute : Draft → Bool → ℕ → Draft
apply_mute d muted now =
    let d1 = record d { muted = muted } in
    if bool_eq d.muted muted
    then d
    else if muted
    then to_idle (if is_idle d1.phase then d1 else voice d1 abort) now
    else if is_idle d1.phase
    then hide (project d1)
    else d1

abbrev pub no_speech : Fault
no_speech = record { kind = no_speech_detected; persistent = false; message = "Didn't catch that" }

-- The switch of `applyTimer`, after the timer is forgotten.
unfoldable pub timer_in : Phase → TimerId → Draft → ℕ → Draft
timer_in (listening gesture (some t)) silence_nudge d now = project d
timer_in (armed gesture) listen_timeout d now = raise_fault d no_speech now
timer_in (listening gesture silent_since) listen_timeout d now = raise_fault d no_speech now
timer_in (processing started_at) elapsed_hint d now = project d
timer_in (processing started_at) cancel_hint d now = project d
timer_in (Phase.error fault) error_dismiss d now = if not fault.persistent then to_idle d now else d
timer_in _ _ d now = d

unfoldable pub apply_timer : Draft → TimerId → ℕ → Draft
unfolding timer_in
apply_timer d id now = timer_in d.phase id (forget d id) now

unfoldable pub apply : Draft → MachineInput → ℕ → Draft
unfolding apply_trigger apply_capture apply_speech apply_turn apply_mute apply_timer trigger_in
apply d (MachineInput.trigger event) now = apply_trigger d event now
apply d (MachineInput.intent RendererIntent.cancel) now = apply_trigger d TriggerEvent.cancel now
apply d (MachineInput.capture event) now = apply_capture d event now
apply d (MachineInput.speech event) now = apply_speech d event now
apply d (MachineInput.turn event) now = apply_turn d event now
apply d (MachineInput.fault fault) now = raise_fault d fault now
apply d (MachineInput.mute muted) now = apply_mute d muted now
apply d (MachineInput.settings env) now = project (record d { env = env })
apply d (MachineInput.timer id) now = apply_timer d id now

unfoldable pub reduce : MachineState → MachineInput → ℕ → Transition
unfolding apply commit
reduce state input now = commit (apply (draft_of state) input now)
