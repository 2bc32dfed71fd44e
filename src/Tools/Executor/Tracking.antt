-- ===== src/Tools/Executor/Tracking.antt =====
-- How many executions of a session run at a time: the calls in flight against those that are tracked.
use talksy.Common.{
  ℕ, ◌≡◌, refl, ap, ◌∙◌, Bool, true, false, [], ◌∷◌, ◌⊎◌, Option, none, arith, String, str_dec, ite,
  if_pos, if_neg, Bool-cases, Option-cases, inl, inr,
}
use talksy.Common.Map
use talksy.Common.Map.{Map}
use talksy.Tools.{Tool}
use talksy.Tools.Registry.{Names}
use talksy.Tools.Executor.{ToolCallRequest}
use talksy.Tools.Executor.Execute.{
  ToolExecutor, Failure, Begun, refused, running, id_or, tracked, get_active_execution_count,
  is_at_limit, track_execution, untrack_execution, check_call, begin,
}

empty : (m : Names) → Map.size m ≡ 0 → m ≡ []
empty [] h = refl
empty (e ∷ m) h = absurd (ground arith)

delete_nothing : (k : String) → Map.delete {V = Unit {0}} k [] ≡ []
unfolding Map.delete
delete_nothing k = refl

delete-set_absent :
    (k : String) (m : Names) → Map.get k m ≡ none → Map.delete k (Map.set k tt m) ≡ m
unfolding Map.get Map.set Map.delete
delete-set_absent k [] h = ground arith
delete-set_absent k ((j, u) ∷ m) h = ground (arith, delete-set_absent k m)

module _ {N H : Type 0} where
  pub tracked-track :
      (s : ToolExecutor N H) (session_id call_id other : String)
      → tracked other (track_execution session_id call_id s)
        ≡ ite
            (str_dec session_id other)
            (Map.set call_id tt (tracked session_id s))
            (tracked other s)
  unfolding track_execution
  tracked-track s session_id call_id other = ground (
    arith,
    Map.get-set other session_id (Map.set call_id tt (tracked session_id s)) s.active_executions,
  )

  pub tracked-untrack :
      (s : ToolExecutor N H) (session_id call_id other : String)
      → tracked other (untrack_execution session_id call_id s)
        ≡ ite
            (str_dec session_id other)
            (Map.delete call_id (tracked session_id s))
            (tracked other s)
  unfolding untrack_execution
  tracked-untrack s session_id call_id other =
      elim (Option-cases (Map.get session_id s.active_executions)) [
        | inl gone ↦ ground (arith, delete_nothing call_id)
        | inr (names, found) ↦
            let left = Map.delete call_id names in
            ground (
              arith,
              empty left,
              Map.get-delete other session_id s.active_executions,
              Map.get-set other session_id left s.active_executions,
            )
      ]

  pub Begun-cases :
      (b : Begun N H)
      → ((f : Failure N) × (b ≡ refused f))
        ⊎ ((id : String) × (tool : Tool N H) × (t : ℕ) × (b ≡ running id tool t))
  Begun-cases (refused f) = inl (f, refl)
  Begun-cases (running id tool t) = inr (id, tool, t, refl)

  pub untracked :
      (s : ToolExecutor N H) (session_id call_id other : String)
      → Map.get call_id (tracked session_id s) ≡ none
      → tracked other (untrack_execution session_id call_id (track_execution session_id call_id s))
        ≡ tracked other s
  untracked s session_id call_id other h =
      let s' = track_execution session_id call_id s in
      tracked-untrack s' session_id call_id other ∙ elim (str_dec session_id other) [
        | yes p ↦
            if_pos (str_dec session_id other) p _ _
            ∙ ap (Map.delete call_id) (
                tracked-track s session_id call_id session_id
                ∙ if_pos (str_dec session_id session_id) refl _ _)
            ∙ delete-set_absent call_id (tracked session_id s) h
            ∙ ap (λ i. tracked i s) p
        | no p ↦
            if_neg (str_dec session_id other) p _ _
            ∙ tracked-track s session_id call_id other
            ∙ if_neg (str_dec session_id other) p _ _
      ]

  pub config-untrack :
      (session_id id : String) (s : ToolExecutor N H)
      → (untrack_execution session_id id s).config ≡ s.config
  unfolding untrack_execution
  config-untrack session_id id s = ground arith

  abbrev pub is_running : Begun N H → Bool
  is_running (refused f) = false
  is_running (running id tool t) = true

  -- A call with a fresh id that is refused leaves the tracked calls of every session as they were; one
  -- that goes on to its handler was below the limit, and is tracked.
  pub begin-tracked :
      (same : N → N → Bool) (s : ToolExecutor N H) (size : Option ℕ) (fresh session_id : String)
      (request : ToolCallRequest N)
      → let id = id_or request.call_id fresh in
        let (s', begun) = begin same size fresh session_id request s in
        Map.get id (tracked session_id s) ≡ none
        → ((is_running begun ≡ false)
            × (s'.config ≡ s.config)
            × ((other : String) → tracked other s' ≡ tracked other s))
          ⊎ ((is_running begun ≡ true)
              × (is_at_limit session_id s ≡ false)
              × (s' ≡ track_execution session_id id s))
  unfolding begin track_execution
  begin-tracked same s size fresh session_id request h =
      let id = id_or request.call_id fresh in
      let s' = track_execution session_id id s in
      elim (Bool-cases (is_at_limit session_id s)) [
        | inl full ↦ rw (full, begin) (inl (refl, refl, λ other. refl))
        | inr room ↦ elim (Begun-cases (check_call same size id request s')) [
          | inl (f, e) ↦
              rw (room, e, begin)
                (inl (
                  refl,
                  config-untrack session_id id s',
                  λ other. untracked s session_id id other h,
                ))
          | inr (i, tool, t, e) ↦ rw (room, e, begin) (inr (refl, refl, refl))
        ]
      ]

  begin-track :
      (same : N → N → Bool) (s : ToolExecutor N H) (size : Option ℕ) (fresh session_id : String)
      (request : ToolCallRequest N)
      → is_running (begin same size fresh session_id request s).1 ≡ true
      → (begin same size fresh session_id request s).0
        ≡ track_execution session_id (id_or request.call_id fresh) s
  unfolding begin
  begin-track same s size fresh session_id request h =
      let id = id_or request.call_id fresh in
      elim (Begun-cases (check_call same size id request (track_execution session_id id s))) [
        | inl (f, e) ↦ ground arith
        | inr (i, tool, t, e) ↦ ground arith
      ]

  -- A call that gets as far as its handler with the id of a call that is tracked for its session leaves
  -- the session's count as it was: the two calls count as one.
  pub begin-duplicate :
      (same : N → N → Bool) (s : ToolExecutor N H) (size : Option ℕ) (fresh session_id : String)
      (request : ToolCallRequest N)
      → is_running (begin same size fresh session_id request s).1 ≡ true
      → Map.has (id_or request.call_id fresh) (tracked session_id s) ≡ true
      → get_active_execution_count session_id (begin same size fresh session_id request s).0
        ≡ get_active_execution_count session_id s
  unfolding get_active_execution_count
  begin-duplicate same s size fresh session_id request h twice =
      let id = id_or request.call_id fresh in
      ap (λ e. Map.size (tracked session_id e)) (begin-track same s size fresh session_id request h)
      ∙ ap Map.size (
          tracked-track s session_id id session_id
          ∙ if_pos (str_dec session_id session_id) refl _ _)
      ∙ ground (arith, Map.size-set id tt (tracked session_id s))
