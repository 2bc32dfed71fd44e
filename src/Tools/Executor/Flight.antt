-- ===== src/Tools/Executor/Flight.antt =====
-- The executions in flight, over any interleaving of the two steps of `execute`.
use talksy.Common.{
  ℕ, suc, ◌≤◌, ◌<◌, ◌≡◌, refl, sym, ap, ◌∙◌, subst, Bool, true, false, if◌then◌else◌, List, [], ◌∷◌,
  ◌++◌, map, Option, none, arith, String, str_dec, ite, if_pos, if_neg, length, inl, inr,
  length-append,
}
use talksy.Common.Map
use talksy.Common.Map.{Distinct}
use talksy.Tools.Registry.{ToolRegistry, Names}
use talksy.Tools.Executor.{ToolExecutorConfig, ToolCallRequest, lists}
use talksy.Tools.Executor.Execute.{
  ToolExecutor, id_or, tracked, get_active_execution_count, begin, finish, Ended, track_execution,
}
use talksy.Tools.Executor.Tracking.{
  config-untrack, tracked-track, tracked-untrack, is_running, begin-tracked,
}

abbrev pub InFlight : Type 0
InFlight = String → List String

-- One occurrence goes.
abbrev pub remove_one : String → List String → List String
remove_one k [] = []
remove_one k (j ∷ js) = ite (str_dec j k) js (j ∷ remove_one k js)

abbrev pub at_session : String → List String → InFlight → InFlight
at_session session_id calls f other = ite (str_dec session_id other) calls (f other)

pub record World (N H : Type 0) : Type 0 where
  pub executor : ToolExecutor N H
  pub in_flight : InFlight

abbrev pub marked : List String → Names
marked = map (λ id. (id, tt))

module _ {N H : Type 0} where
  unfoldable pub start :
      (N → N → Bool) → Option ℕ → String → String → ToolCallRequest N → World N H → World N H
  start same size fresh session_id request w =
      let id = id_or request.call_id fresh in
      let (s', begun) = begin same size fresh session_id request w.executor in
      record {
        executor = s';
        in_flight =
            if is_running begun
            then at_session session_id (w.in_flight session_id ++ id ∷ []) w.in_flight
            else w.in_flight;
      }

  unfoldable pub end :
      {R : Type 0} → String → String → ToolCallRequest N → Ended R → World N H → World N H
  end session_id id request ended w = record {
    executor = (finish session_id id request ended w.executor).0;
    in_flight = at_session session_id (remove_one id (w.in_flight session_id)) w.in_flight;
  }

  -- A call starts with an id that no call in flight of its session has; one that is in flight ends.
  pub data Step (same : N → N → Bool) (w : World N H) : World N H → Type 1 where
    starts :
        (size : Option ℕ) (fresh session_id : String) (request : ToolCallRequest N)
        → lists (id_or request.call_id fresh) (w.in_flight session_id) ≡ false
        → Step same w (start same size fresh session_id request w)
    ends :
        {R : Type 0} (session_id id : String) (request : ToolCallRequest N) (ended : Ended R)
        → lists id (w.in_flight session_id) ≡ true
        → Step same w (end session_id id request ended w)

  pub data Reach (same : N → N → Bool) (w : World N H) : World N H → Type 1 where
    here : Reach same w w
    next : {u v : World N H} → Reach same w u → Step same u v → Reach same w v

  -- The tracked calls of each session are those in flight, no more than the limit.
  pub record Agrees (limit : ℕ) (w : World N H) : Type 0 where
    pub same_limit : w.executor.config.max_concurrent_executions ≡ limit
    pub tracks : (c : String) → tracked c w.executor ≡ marked (w.in_flight c)
    pub unique : (c : String) → Distinct (marked (w.in_flight c))
    pub few : (c : String) → length (w.in_flight c) ≤ limit

length-marked : (l : List String) → Map.size (marked l) ≡ length l
length-marked [] = refl
length-marked (k ∷ l) = ap suc (length-marked l)

get-marked : (k : String) (l : List String) → Map.has k (marked l) ≡ lists k l
unfolding Map.get
get-marked k [] = refl
get-marked k (j ∷ l) = ground (arith, get-marked k l)

delete-marked :
    (k : String) (l : List String)
    → Distinct (marked l)
    → Map.delete k (marked l) ≡ marked (remove_one k l)
unfolding Map.delete
delete-marked k [] d = refl
delete-marked k (j ∷ l) d = ground (arith, delete-marked k l d.1, Map.delete_absent k (marked l))

remove_one-le : (k : String) (l : List String) → length (remove_one k l) ≤ length l
remove_one-le k [] = omega arith
remove_one-le k (j ∷ l) = ground (arith, remove_one-le k l)

set-marked :
    (k : String) (l : List String)
    → lists k l ≡ false
    → Map.set k tt (marked l) ≡ marked (l ++ k ∷ [])
unfolding Map.set
set-marked k [] h = refl
set-marked k (j ∷ l) h = ground (arith, set-marked k l)

Distinct-set_marked :
    (k : String) (l : List String)
    → lists k l ≡ false
    → Distinct (marked l)
    → Distinct (marked (l ++ k ∷ []))
Distinct-set_marked k l h d = subst Distinct (set-marked k l h) (Map.set-Distinct k tt (marked l) d)

Distinct-delete_marked :
    (k : String) (l : List String) → Distinct (marked l) → Distinct (marked (remove_one k l))
Distinct-delete_marked k l d =
    subst Distinct (delete-marked k l d) (Map.delete-Distinct k (marked l) d)

-- What holds at the session and at every other holds everywhere.
everywhere :
    (P : List String → Type 0) (session_id c : String) (calls old : List String)
    → P calls
    → P old
    → P (ite (str_dec session_id c) calls old)
everywhere P session_id c calls old p q = elim (str_dec session_id c) [
  | yes e ↦ subst P (sym (if_pos (str_dec session_id c) e _ _)) p
  | no e ↦ subst P (sym (if_neg (str_dec session_id c) e _ _)) q
]

module _ {N H : Type 0} (limit : ℕ) (w : World N H) (a : Agrees limit w) where
  end-Agrees :
      {R : Type 0} (session_id id : String) (request : ToolCallRequest N) (ended : Ended R)
      → Agrees limit (end session_id id request ended w)
  unfolding end finish
  end-Agrees session_id id request ended =
      let l = w.in_flight session_id in
      record {
        same_limit =
            ap (λ k. k.max_concurrent_executions) (config-untrack session_id id w.executor)
            ∙ a.same_limit;
        tracks = λ c. ground (
          arith,
          tracked-untrack w.executor session_id id c,
          a.tracks session_id,
          a.tracks c,
          delete-marked id l (a.unique session_id),
        );
        unique = λ c.
            everywhere (λ k. Distinct (marked k)) session_id c _ _
              (Distinct-delete_marked id l (a.unique session_id)) (a.unique c);
        few = λ c. ground (arith, a.few session_id, a.few c, remove_one-le id l);
      }

  added-Agrees :
      (session_id id : String)
      → lists id (w.in_flight session_id) ≡ false
      → length (w.in_flight session_id) < limit
      → Agrees limit (record {
        executor = track_execution session_id id w.executor;
        in_flight = at_session session_id (w.in_flight session_id ++ id ∷ []) w.in_flight;
      })
  unfolding track_execution
  added-Agrees session_id id fresh room =
      let l = w.in_flight session_id in
      record {
        same_limit = a.same_limit;
        tracks = λ c. ground (
          arith,
          tracked-track w.executor session_id id c,
          a.tracks session_id,
          a.tracks c,
          set-marked id l fresh,
        );
        unique = λ c.
            everywhere (λ k. Distinct (marked k)) session_id c _ _
              (Distinct-set_marked id l fresh (a.unique session_id)) (a.unique c);
        few = λ c. ground (arith, a.few c, length-append l (id ∷ []));
      }

  kept-Agrees :
      (s : ToolExecutor N H)
      → s.config ≡ w.executor.config
      → ((c : String) → tracked c s ≡ tracked c w.executor)
      → Agrees limit (record { executor = s; in_flight = w.in_flight })
  kept-Agrees s e same = record {
    same_limit = ap (λ k. k.max_concurrent_executions) e ∙ a.same_limit;
    tracks = λ c. same c ∙ a.tracks c;
    unique = a.unique;
    few = a.few;
  }

  start-Agrees :
      (same : N → N → Bool) (size : Option ℕ) (fresh session_id : String)
      (request : ToolCallRequest N)
      → lists (id_or request.call_id fresh) (w.in_flight session_id) ≡ false
      → Agrees limit (start same size fresh session_id request w)
  unfolding start
  start-Agrees same size fresh session_id request new =
      let id = id_or request.call_id fresh in
      let l = w.in_flight session_id in
      let untracked : Map.get id (tracked session_id w.executor) ≡ none =
        ground (arith, a.tracks session_id, get-marked id l) in
      elim (begin-tracked same w.executor size fresh session_id request untracked) [
        | inl (e, config, kept) ↦ rw (e, start) (kept-Agrees _ config kept)
        | inr (e, room, s) ↦
            let few : length l < limit =
              ground (arith, a.tracks session_id, a.same_limit, length-marked l) in
            rw (e, s, start) (added-Agrees session_id id new few)
      ]

module _ {N H : Type 0} where
  unfoldable pub new_world : ToolRegistry N H → ToolExecutorConfig → World N H
  new_world registry config = record {
    executor = record { registry = registry; config = config; active_executions = [] };
    in_flight = λ c. [];
  }

  Reach-Agrees :
      (same : N → N → Bool) (registry : ToolRegistry N H) (config : ToolExecutorConfig)
      {w : World N H}
      → Reach same (new_world registry config) w
      → Agrees config.max_concurrent_executions w
  unfolding new_world Map.get
  Reach-Agrees same registry config here = record {
    same_limit = refl;
    tracks = λ c. refl;
    unique = λ c. tt;
    few = λ c. omega arith;
  }
  Reach-Agrees same registry config (next r (starts size fresh session_id request new)) =
      start-Agrees _ _ (Reach-Agrees same registry config r) same size fresh session_id request new
  Reach-Agrees same registry config (next r (ends session_id id request ended flying)) =
      end-Agrees _ _ (Reach-Agrees same registry config r) session_id id request ended

  -- In every state reached from a new executor by calls that start, each with an id that no call in flight
  -- of its session has, and calls in flight that end, in any order: the count of a session is the number of
  -- its calls in flight, and no more than the limit.
  pub Reach-count :
      (same : N → N → Bool) (registry : ToolRegistry N H) (config : ToolExecutorConfig)
      {w : World N H}
      → Reach same (new_world registry config) w
      → (session_id : String)
      → (get_active_execution_count session_id w.executor ≡ length (w.in_flight session_id))
        × (length (w.in_flight session_id) ≤ config.max_concurrent_executions)
  unfolding get_active_execution_count
  Reach-count same registry config {w} r session_id =
      let a = Reach-Agrees same registry config r in
      (ap Map.size (a.tracks session_id) ∙ length-marked (w.in_flight session_id), a.few session_id)
