-- ===== src/Realtime/Turn/Traces.antt =====
-- What a run of turn-taking calls sends, counted.
use riki.Prelude.{
  ℕ, ◌+◌, ◌≡◌, refl, ◌∙◌, Bool, true, false, List, [], ◌∷◌, none, some, String, arith, count,
  count-append, all, inl, inr, if◌then◌else◌,
}
use riki.Realtime.Turn.{
  TransportKind, Turns, buffer_clear, function_output, TurnContext, Playing, Sent, TurnCall, begins,
  ends, resumes, interrupts, aborts, speaks, answers, begin_turn, end_turn, resume, resume_from,
  interrupt, abort, truncate, speak_unprompted, submit_tool_output, call, run,
}
use riki.Realtime.Turn.Sends.{
  asks, is_output, is_answer, starts_nothing, truncation-asks, truncation-outputs, snapshot-outputs,
  List-cases, resumed-asks, resumed-outputs, interrupt-cancelled, abort-cancelled, abort-waiting,
  resume-cancelled, sends-resume, spoken-sends, answered-sends, interrupt-sends, abort-sends,
}

module _ (turn_name : ℕ → String) (transport : TransportKind) where
  call-outputs :
      (q : String → String → Bool) (t : Turns) (c : TurnCall)
      → count (is_output q) (call turn_name transport t c).sent
        ≡ count (is_output q) t.sent + (if is_answer q c then 1 else 0)
  unfolding call begin_turn end_turn resume resume_from speak_unprompted submit_tool_output
  call-outputs q t (begins none) = ground (
    arith,
    count-append (is_output q) t.sent (Sent.turn_id (turn_name (t.turn_counter + 1)) ∷ []),
  )
  call-outputs q t (begins (some id)) =
      ground (arith, count-append (is_output q) t.sent (Sent.turn_id id ∷ []))
  call-outputs q t (ends turn reason context) =
      ground (arith, count-append (is_output q) t.sent (buffer_clear ∷ []))
  call-outputs q t resumes = elim (List-cases t.waiting) [
    | inl e ↦ ground (arith, e)
    | inr (w, ws, e) ↦ ground (arith, sends-resume (is_output q) t w ws e, resumed-outputs q w)
  ]
  call-outputs q t (interrupts p) =
      ground (arith, interrupt-sends (is_output q) (truncation-outputs q) transport t p)
  call-outputs q t (aborts p) = ground (arith, abort-sends (is_output q) (truncation-outputs q) t p)
  call-outputs q t (speaks context) =
      ground (arith, spoken-sends (is_output q) t context, snapshot-outputs q context.snapshot_text)
  call-outputs q t (answers id output) = ground (arith, answered-sends (is_output q) t id output)

  -- Whatever is asked of call ids and outputs: as many outputs that fit are sent as tool calls are
  -- answered with an id and an output that fit. So each answered call has its own output sent once
  -- under its own id, whatever was cancelled and whatever calls come between, and nothing else is.
  pub run-outputs :
      (q : String → String → Bool) (t : Turns) (cs : List TurnCall)
      → count (is_output q) (run turn_name transport t cs).sent
        ≡ count (is_output q) t.sent + count (is_answer q) cs
  unfolding run
  run-outputs q t [] = omega arith
  run-outputs q t (c ∷ cs) =
      ground (arith, run-outputs q (call turn_name transport t c) cs, call-outputs q t c)

  call-quiet :
      (t : Turns) (c : TurnCall)
      → t.cancelled ≡ true
      → starts_nothing c ≡ true
      → ((call turn_name transport t c).cancelled ≡ true)
        × (count asks (call turn_name transport t c).sent ≡ count asks t.sent)
  unfolding call begin_turn end_turn interrupt abort truncate submit_tool_output
  call-quiet t (begins none) h q =
      ground (arith, count-append asks t.sent (Sent.turn_id (turn_name (t.turn_counter + 1)) ∷ []))
  call-quiet t (begins (some id)) h q =
      ground (arith, count-append asks t.sent (Sent.turn_id id ∷ []))
  call-quiet t (ends turn reason context) h q =
      ground (arith, count-append asks t.sent (buffer_clear ∷ []))
  call-quiet t resumes h q = cc
  call-quiet t (interrupts p) h q =
      (interrupt-cancelled transport t p, interrupt-sends asks truncation-asks transport t p)
  call-quiet t (aborts p) h q = (refl, omega (arith, abort-sends asks truncation-asks t p))
  call-quiet t (speaks context) h q = cc
  call-quiet t (answers id output) h q =
      ground (arith, count-append asks t.sent (function_output id output ∷ []))

  run-quiet :
      (t : Turns) (cs : List TurnCall)
      → t.cancelled ≡ true
      → all starts_nothing cs ≡ true
      → count asks (run turn_name transport t cs).sent ≡ count asks t.sent
  unfolding run
  run-quiet t [] h q = refl
  run-quiet t (c ∷ cs) h q =
      let next = call turn_name transport t c in ground (arith, call-quiet t c h, run-quiet next cs)

  -- Once the player has stopped a response, by Esc or by talking over it, no calls bring it back:
  -- until an awaited turn ends or the trigger policy speaks, however many tools answer and turns
  -- begin, no response is asked for.
  pub stopped_stays_silent :
      (t : Turns) (p : Playing) (cs : List TurnCall)
      → all starts_nothing cs ≡ true
      → (count asks (run turn_name transport t (aborts p ∷ cs)).sent ≡ count asks t.sent)
        × (count asks (run turn_name transport t (interrupts p ∷ cs)).sent ≡ count asks t.sent)
  unfolding run call
  stopped_stays_silent t p cs q = (
    run-quiet (abort t p) cs (abort-cancelled t p) q
        ∙ omega (arith, abort-sends asks truncation-asks t p),
    run-quiet (interrupt transport t p) cs (interrupt-cancelled transport t p) q
        ∙ interrupt-sends asks truncation-asks transport t p,
  )

  -- A turn that waits for the end of speech when the player presses Esc asks for its response
  -- afterwards all the same, and lets the tools continue it.
  pub abort_keeps_waiting :
      (t : Turns) (p : Playing) (w : TurnContext) (ws : List TurnContext)
      → t.waiting ≡ w ∷ ws
      → let after = run turn_name transport t (aborts p ∷ resumes ∷ []) in
        (count asks after.sent ≡ count asks t.sent + 1) × (after.cancelled ≡ false)
  unfolding run call
  abort_keeps_waiting t p w ws e =
      let stopped = abort t p in
      let still : stopped.waiting ≡ w ∷ ws = abort-waiting t p ∙ e in
      (
        omega (
          arith,
          sends-resume asks stopped w ws still,
          resumed-asks w,
          abort-sends asks truncation-asks t p,
        ),
        resume-cancelled stopped w ws still,
      )
