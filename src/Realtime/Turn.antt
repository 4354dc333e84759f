-- ===== src/Realtime/Turn.antt =====
-- turn.ts: turn-taking. The closure's variables are a record, with the capture gate and the module's
-- counter of turn ids; what is sent and reported is a list. `endTurn` awaits the end of speech, so
-- it is two steps, and a turn that waits stands in `waiting` while other calls come. The playback
-- position, rounded and at least 0, and the item being spoken are arguments.
mod Sends
pub mod Traces
mod Tests
use text.Mathlib.Text.{◌==◌ as str_eq}
use riki.Prelude.{
  ℕ, zero, suc, ◌+◌, Bool, true, false, not, List, [], ◌∷◌, ◌++◌, Option, none, some, String,
  if◌then◌else◌,
}

pub data TurnEndReason : Type 0 where
  release latch_tap timeout cancel : TurnEndReason

pub data TransportKind : Type 0 where
  webrtc websocket fake : TransportKind

pub record TurnContext : Type 0 where
  pub turn_id : String
  pub snapshot_text : String

-- What is sent to the server, and what is reported to listeners.
pub data Sent : Type 0 where
  buffer_clear : Sent
  system_message : String → Sent
  response_create : Sent
  response_cancel : Sent
  truncate_item : String → ℕ → Sent
  function_output : String → String → Sent
  turn_id : String → Sent
  submitted : String → Sent
  truncated : String → ℕ → Sent

pub record Turns : Type 0 where
  pub active : Option String
  pub cancelled : Bool
  pub capture_open : Bool
  pub turn_counter : ℕ
  pub waiting : List TurnContext
  pub sent : List Sent

-- What the session and the playback tracker say at the time of a call.
pub record Playing : Type 0 where
  pub current_item : Option String
  pub audible_ms : ℕ

abbrev pub emit : Turns → List Sent → Turns
emit t events = record t { sent = t.sent ++ events }

unfoldable pub truncation : Playing → List Sent
truncation p = elim p.current_item [
  | none ↦ []
  | some item ↦ truncate_item item p.audible_ms ∷ truncated item p.audible_ms ∷ []
]

unfoldable pub truncate : Turns → Playing → Turns
unfolding truncation
truncate t p = emit t (truncation p)

abbrev pub is_active : Option String → String → Bool
is_active none turn = false
is_active (some active) turn = str_eq active turn

abbrev pub snapshot_item : String → List Sent
snapshot_item text = if str_eq text "" then [] else system_message text ∷ []

-- `turn_name n` is the text `turn_n`.
unfoldable pub begin_turn : (ℕ → String) → Turns → Option String → Turns
begin_turn turn_name t (some supplied) =
    emit (record t { active = some supplied; capture_open = true }) (turn_id supplied ∷ [])
begin_turn turn_name t none =
    let id = turn_name (t.turn_counter + 1) in
    emit (record t { active = some id; capture_open = true; turn_counter = t.turn_counter + 1 })
      (turn_id id ∷ [])

-- `endTurn` up to the await.
unfoldable pub end_turn : Turns → String → TurnEndReason → TurnContext → Turns
end_turn t turn reason context =
    let t1 = record t { capture_open = false } in
    let t2 = record t1 { active = none } in
    if not (is_active t.active turn) then t1 else elim reason [
      | cancel ↦ emit (record t2 { cancelled = true }) (buffer_clear ∷ [])
      | _ ↦ record t2 {
        waiting =
            t.waiting ++ (record { turn_id = turn; snapshot_text = context.snapshot_text }) ∷ [];
      }
    ]

-- `endTurn` from the await on, for the turn that has waited longest.
resume_from : List TurnContext → Turns → Turns
resume_from [] t = t
resume_from (w ∷ waiting) t =
    emit (record t { waiting = waiting; cancelled = false })
      (snapshot_item w.snapshot_text ++ response_create ∷ submitted w.turn_id ∷ [])

unfoldable pub resume : Turns → Turns
unfolding resume_from
resume t = resume_from t.waiting t

unfoldable pub interrupt : TransportKind → Turns → Playing → Turns
unfolding truncate
interrupt transport t p =
    let t1 = record t { cancelled = true } in elim transport [ websocket ↦ truncate t1 p | _ ↦ t1 ]

unfoldable pub abort : Turns → Playing → Turns
unfolding truncate
abort t p =
    let t1 = truncate (emit (record t { cancelled = true }) (response_cancel ∷ [])) p in
    record t1 { capture_open = false; active = none }

unfoldable pub speak_unprompted : Turns → TurnContext → Turns
speak_unprompted t context =
    let t1 = emit t (turn_id context.turn_id ∷ snapshot_item context.snapshot_text) in
    emit (record t1 { cancelled = false }) (response_create ∷ submitted context.turn_id ∷ [])

-- The result says whether the model was asked to continue.
unfoldable pub submit_tool_output : Turns → String → String → Turns × Bool
submit_tool_output t call output =
    let t1 = emit t (function_output call output ∷ []) in
    if t.cancelled then (t1, false) else (emit t1 (response_create ∷ []), true)

pub data TurnCall : Type 0 where
  begins : Option String → TurnCall
  ends : String → TurnEndReason → TurnContext → TurnCall
  resumes : TurnCall
  interrupts aborts : Playing → TurnCall
  speaks : TurnContext → TurnCall
  answers : String → String → TurnCall

module _ (turn_name : ℕ → String) (transport : TransportKind) where
  unfoldable pub call : Turns → TurnCall → Turns
  unfolding begin_turn end_turn resume interrupt abort speak_unprompted submit_tool_output
  call t (begins supplied) = begin_turn turn_name t supplied
  call t (ends turn reason context) = end_turn t turn reason context
  call t resumes = resume t
  call t (interrupts p) = interrupt transport t p
  call t (aborts p) = abort t p
  call t (speaks context) = speak_unprompted t context
  call t (answers id output) = (submit_tool_output t id output).0

  unfoldable pub run : Turns → List TurnCall → Turns
  run t [] = t
  run t (c ∷ cs) = run (call t c) cs
