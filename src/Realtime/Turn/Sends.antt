-- ===== src/Realtime/Turn/Sends.antt =====
-- How many events of a kind each operation of turn-taking sends.
use riki.Prelude.{
  ℕ, ◌+◌, ◌≡◌, refl, Bool, true, false, List, [], ◌∷◌, ◌++◌, String, arith, ◌⊎◌, count,
  count-append, inl, inr, if◌then◌else◌,
}
use riki.Realtime.Turn.{
  TransportKind, Turns, emit, response_create, submitted, response_cancel, function_output, turn_id,
  TurnContext, Playing, Sent, TurnCall, resumes, speaks, answers, resume, resume_from, interrupt,
  abort, truncate, truncation, snapshot_item, speak_unprompted, submit_tool_output,
}

abbrev pub asks : Sent → Bool
asks Sent.response_create = true
asks _ = false

-- The outputs of tool calls, and the calls that give one, with an id and a text that pass `q`.
abbrev pub is_output : (String → String → Bool) → Sent → Bool
is_output q (Sent.function_output id output) = q id output
is_output q _ = false

abbrev pub is_answer : (String → String → Bool) → TurnCall → Bool
is_answer q (answers id output) = q id output
is_answer q _ = false

-- The calls that may go on while nobody starts a response: all but the end of an awaited turn and
-- a turn that the trigger policy speaks.
abbrev pub starts_nothing : TurnCall → Bool
starts_nothing resumes = false
starts_nothing (speaks context) = false
starts_nothing _ = true

pub truncation-asks : (p : Playing) → count asks (truncation p) ≡ 0
unfolding truncation
truncation-asks p = ground arith

pub truncation-outputs :
    (q : String → String → Bool) (p : Playing) → count (is_output q) (truncation p) ≡ 0
unfolding truncation
truncation-outputs q p = ground arith

pub snapshot-outputs :
    (q : String → String → Bool) (text : String) → count (is_output q) (snapshot_item text) ≡ 0
snapshot-outputs q text = ground arith

pub List-cases : {A : Type 0} (xs : List A) → (xs ≡ []) ⊎ ((x : A) × (ys : List A) × (xs ≡ x ∷ ys))
List-cases [] = inl refl
List-cases (x ∷ xs) = inr (x, xs, refl)

pub snapshot-asks : (text : String) → count asks (snapshot_item text) ≡ 0
snapshot-asks text = ground arith

pub resumed-asks :
    (w : TurnContext)
    → count asks (snapshot_item w.snapshot_text ++ response_create ∷ submitted w.turn_id ∷ []) ≡ 1
resumed-asks w = ground arith

pub resumed-outputs :
    (q : String → String → Bool) (w : TurnContext)
    → count
        (is_output q)
        (snapshot_item w.snapshot_text ++ response_create ∷ submitted w.turn_id ∷ [])
      ≡ 0
resumed-outputs q w = ground arith

pub interrupt-cancelled :
    (transport : TransportKind) (t : Turns) (p : Playing)
    → (interrupt transport t p).cancelled ≡ true
unfolding interrupt truncate
interrupt-cancelled transport t p = ground arith

pub abort-cancelled : (t : Turns) (p : Playing) → (abort t p).cancelled ≡ true
unfolding abort truncate
abort-cancelled t p = refl

pub abort-waiting : (t : Turns) (p : Playing) → (abort t p).waiting ≡ t.waiting
unfolding abort truncate
abort-waiting t p = refl

pub resume-cancelled :
    (t : Turns) (w : TurnContext) (ws : List TurnContext)
    → t.waiting ≡ w ∷ ws
    → (resume t).cancelled ≡ false
unfolding resume resume_from
resume-cancelled t w ws e = rw e refl

-- For a kind `q` of events: how many of them each operation sends.
module _ (q : Sent → Bool) where
  abbrev pub sends : Turns → ℕ
  sends t = count q t.sent

  pub sends-emit :
      (t : Turns) (events : List Sent) → sends (emit t events) ≡ sends t + count q events
  sends-emit t events = count-append q t.sent events

  pub sends-resume :
      (t : Turns) (w : TurnContext) (ws : List TurnContext)
      → t.waiting ≡ w ∷ ws
      → sends (resume t)
        ≡ sends t
          + count q (snapshot_item w.snapshot_text ++ response_create ∷ submitted w.turn_id ∷ [])
  unfolding resume resume_from
  sends-resume t w ws e = rw e (
      count-append q t.sent
        (snapshot_item w.snapshot_text ++ response_create ∷ submitted w.turn_id ∷ []))

  pub spoken-sends :
      (t : Turns) (context : TurnContext)
      → sends (speak_unprompted t context)
        ≡ sends t
          + count q (turn_id context.turn_id ∷ snapshot_item context.snapshot_text)
          + count q (response_create ∷ submitted context.turn_id ∷ [])
  unfolding speak_unprompted
  spoken-sends t context =
      let t1 : Turns = emit t (turn_id context.turn_id ∷ snapshot_item context.snapshot_text) in
      omega (
        arith,
        sends-emit t (turn_id context.turn_id ∷ snapshot_item context.snapshot_text),
        sends-emit t1 (response_create ∷ submitted context.turn_id ∷ []),
      )

  pub answered-sends :
      (t : Turns) (id output : String)
      → sends (submit_tool_output t id output).0
        ≡ sends t
          + count q (function_output id output ∷ [])
          + (if t.cancelled then 0 else count q (response_create ∷ []))
  unfolding submit_tool_output
  answered-sends t id output =
      let t1 : Turns = emit t (function_output id output ∷ []) in
      ground
        (arith, sends-emit t (function_output id output ∷ []), sends-emit t1 (response_create ∷ []))

  module _ (truncation-sends : (p : Playing) → count q (truncation p) ≡ 0) where
    pub truncate-sends : (t : Turns) (p : Playing) → sends (truncate t p) ≡ sends t
    unfolding truncate
    truncate-sends t p = omega (arith, sends-emit t (truncation p), truncation-sends p)

    pub interrupt-sends :
        (transport : TransportKind) (t : Turns) (p : Playing)
        → sends (interrupt transport t p) ≡ sends t
    unfolding interrupt
    interrupt-sends transport t p =
        let t1 : Turns = record t { cancelled = true } in ground (arith, truncate-sends t1 p)

    pub abort-sends :
        (t : Turns) (p : Playing) → sends (abort t p) ≡ sends t + count q (response_cancel ∷ [])
    unfolding abort
    abort-sends t p =
        let t1 : Turns = record t { cancelled = true } in
        let t2 : Turns = emit t1 (response_cancel ∷ []) in
        omega (arith, truncate-sends t2 p, sends-emit t1 (response_cancel ∷ []))
