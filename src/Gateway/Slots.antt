-- ===== src/Gateway/Slots.antt =====
-- The calls of tools that the gateway makes, against the executions that are tracked.
use talksy.Common.{
  ℕ, ◌≡◌, ◌≢◌, refl, ap, ◌∙◌, Bool, true, false, Option, none, some, is_some, arith, String,
  str_dec, ite, if_pos, if_neg, inl, inr, Option-cases, Bool-cases,
}
use talksy.Common.Map
use talksy.Session.{SessionService}
use talksy.Session.Methods.{has_session}
use talksy.Tools.{Tool}
use talksy.Tools.Executor.{ToolCallRequest}
use talksy.Tools.Executor.Execute.{
  ToolExecutor, Ended, running, id_or, tracked, track_execution, untrack_execution, check_call,
  begin, finish,
}
use talksy.Tools.Executor.Tracking.{Begun-cases, untracked, tracked-track, begin-tracked}
use talksy.Gateway.ToolCalls.{
  ToolCallData, Called, answered, called, given, request_of, tool_call_begin, tool_call_end,
}

module _ {N H : Type 0} (same : N → N → Bool) where
  -- A call runs under the id that it is tracked by.
  begin_id :
      (s : ToolExecutor N H) (size : Option ℕ) (fresh c : String) (request : ToolCallRequest N)
      (id : String) (tool : Tool N H) (t : ℕ)
      → (begin same size fresh c request s).1 ≡ running id tool t
      → id ≡ id_or request.call_id fresh
  unfolding begin check_call
  begin_id s size fresh c request id tool t e = ground arith

module _ {N H : Type 0} (s : ToolExecutor N H) where
  has-track :
      (c key id i : String)
      → id ≡ key
      → Map.has i (tracked c (track_execution c key s))
        ≡ ite (str_dec id i) true (Map.has i (tracked c s))
  has-track c key id i same_id =
      ap (Map.has i) (tracked-track s c key c ∙ if_pos (str_dec c c) refl _ _)
      ∙ ground (arith, Map.get-set i key tt (tracked c s))

-- The call has been answered, with the executions as they were; or a tool runs: then the id that it
-- runs under was not tracked, it is while the tool runs, with all that were tracked for the client, and
-- nothing else is; and when the tool has ended, in whatever way, all is as it was.
pub KeepsSlots :
    {N H R : Type 0} → String → ToolExecutor N H → ToolExecutor N H × Called N H R → Type 0
KeepsSlots {R = R} c s (s', answered event) = (other : String) → tracked other s' ≡ tracked other s
KeepsSlots {R = R} c s (s', called request id tool timeout_ms) =
    (Map.has id (tracked c s) ≡ false)
    × ((i : String) → Map.has i (tracked c s') ≡ ite (str_dec id i) true (Map.has i (tracked c s)))
    × ((other : String) → c ≢ other → tracked other s' ≡ tracked other s)
    × ((other : String) (now : ℕ) (ended : Ended R)
        → tracked other (tool_call_end now c id request ended s').0 ≡ tracked other s)

module _ {N H : Type 0} (R : Type 0) (same : N → N → Bool) (clock : ℕ → ℕ) (size : Option ℕ)
    (fresh c : String) (d : ToolCallData N) (sessions : SessionService) (s : ToolExecutor N H) where
  ended-tracked :
      (request : ToolCallRequest N) (id : String) (tool : Tool N H) (t : ℕ)
      → Map.get (id_or request.call_id fresh) (tracked c s) ≡ none
      → (begin same size fresh c request s).1 ≡ running id tool t
      → KeepsSlots {R = R} c s ((begin same size fresh c request s).0, called request id tool t)
  unfolding KeepsSlots tool_call_end finish
  ended-tracked request id tool t free e =
      let key = id_or request.call_id fresh in
      let same_id : id ≡ key = begin_id same s size fresh c request id tool t e in
      let track : (begin same size fresh c request s).0 ≡ track_execution c key s =
        elim (begin-tracked same s size fresh c request free) [
          | inl (stopped, config, kept) ↦ absurd (ground arith)
          | inr (runs, room, track) ↦ track
        ] in
      let free_id = ap (λ i. Map.has i (tracked c s)) same_id ∙ ap is_some free in
      (
        free_id,
        λ i.
            ap (λ (x : ToolExecutor N H). Map.has i (tracked c x)) track
            ∙ has-track s c key id i same_id,
        λ other ne.
            ap (λ (x : ToolExecutor N H). tracked other x) track
            ∙ tracked-track s c key other
            ∙ if_neg (str_dec c other) ne _ _,
        λ other now ended.
            ap (λ x. tracked other (untrack_execution c id x)) track
            ∙ ap (λ i. tracked other (untrack_execution c i (track_execution c key s))) same_id
            ∙ untracked s c key other free,
      )

  -- A call of a tool that comes with an id that is not tracked for its client holds a slot of the client
  -- while the tool runs, and no longer, where nothing else runs meanwhile: if a tool runs, the id under
  -- which it does is tracked beside the ids that were, and the executions of other sessions are as
  -- they were; when it has ended, whether it has succeeded, failed or timed out, and also if the call is
  -- answered at once, the executions of every session are as they were before.
  pub tool_call_begin-KeepsSlots :
      ((name : String)
        → given d.tool_name ≡ some name
        → Map.get (id_or (request_of name d).call_id fresh) (tracked c s) ≡ none)
      → KeepsSlots c s (tool_call_begin {R = R} same clock size fresh c d sessions s)
  unfolding tool_call_begin KeepsSlots
  tool_call_begin-KeepsSlots free = elim (Option-cases (given d.tool_name)) [
    | inl nameless ↦ rw (tool_call_begin, nameless) (λ other. refl)
    | inr (name, named) ↦ elim (Bool-cases (has_session (clock 0) c sessions)) [
      | inr closed ↦ rw (tool_call_begin, named, closed) (λ other. refl)
      | inl open_session ↦
          let request = request_of name d in
          elim (Begun-cases (begin same size fresh c request s).1) [
            | inl (f, e) ↦
                rw (tool_call_begin, named, open_session, e)
                  (λ other. elim (begin-tracked same s size fresh c request (free name named)) [
                    | inl (stopped, config, kept) ↦ kept other
                    | inr (runs, room, track) ↦ absurd (ground arith)
                  ])
            | inr (id, tool, t, e) ↦
                rw (tool_call_begin, named, open_session, e)
                  (ended-tracked request id tool t (free name named) e)
          ]
    ]
  ]
