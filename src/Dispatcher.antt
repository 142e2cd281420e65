-- ===== src/Dispatcher.antt =====
-- src/engine/dispatcher.h and src/engine/dispatcher.cpp: the dispatcher of a function, which gives
-- calls to workers. The lock makes each call one step. What the tracer, the clock, the flags and the
-- worker manager say during a step is a record of readings; statistics and message pools are left out.
pub mod Sound
pub mod Steps
pub mod Pick
pub mod Reach
mod Tests
use boki.Base.{
  ℕ, zero, suc, ◌+◌, ◌-◌, ◌*◌, ◌/◌, ◌%◌, ◌^◌, List, [], ◌∷◌, ◌++◌, Option, none, some, Bool, true,
  false, not, ◌&&◌, ◌||◌, length, ltb, leb, ◌==◌, if◌then◌else◌, Map, lookup, contains, insert,
  erase, Result, ok, panic,
}

-- A call is its `full_call_id`, which holds the id of the client that makes it.
abbrev pub call_client_id : ℕ → ℕ
call_client_id func_call = func_call / 2 ^ 14 % 2 ^ 14

pub record Readings : Type 0 where
  pub now : ℕ
  -- Is the delay of a call in the queue tolerable?
  pub is_tolerable : ℕ → Bool
  pub concurrency_limiter_disabled : Bool
  -- the estimate, and the largest number where there is none
  pub estimated_limit : ℕ
  pub expected_concurrency : ℕ
  pub always_request_worker : Bool
  pub min_worker_request_interval_ms : ℕ
  -- what `RequestNewFuncWorker` gives
  pub offered_worker : Option ℕ

pub record Dispatcher : Type 0 where
  pub min_workers : ℕ
  pub max_workers : ℕ
  pub workers : Map (Unit {0})
  pub running_workers : Map ℕ
  -- the back of the vector is the head of the list
  pub idle_workers : List ℕ
  pub requested_workers : Map ℕ
  pub last_request_worker_timestamp : Option ℕ
  pub pending_func_calls : List ℕ
  pub assigned_workers : Map ℕ

-- The constructor, with the entry of the function's configuration: zero sets no bound.
abbrev pub dispatcher : ℕ → ℕ → Dispatcher
dispatcher min_workers max_workers = record {
  min_workers = min_workers;
  max_workers = if max_workers == 0 then 2 ^ 64 - 1 else max_workers;
  workers = [];
  running_workers = [];
  idle_workers = [];
  requested_workers = [];
  last_request_worker_timestamp = none;
  pending_func_calls = [];
  assigned_workers = [];
}

-- What a step does outside: a call is sent to a worker or discarded, or a worker is asked for.
pub data Output : Type 0 where
  dispatch : ℕ → ℕ → Output
  discard : ℕ → Output

-- `DispatchFuncCall`
unfoldable pub dispatch_func_call : ℕ → ℕ → Dispatcher → Dispatcher
dispatch_func_call client_id func_call d = record d {
  assigned_workers = insert func_call client_id d.assigned_workers;
  running_workers = insert client_id func_call d.running_workers;
}

-- The loop of `DispatchPendingFuncCall` over the calls that wait; the flag says whether the worker got
-- one.
unfoldable pub dispatch_pending :
    Readings → ℕ → List ℕ → Dispatcher → Bool × Dispatcher × List Output
dispatch_pending r client_id [] d = (false, record d { pending_func_calls = [] }, [])
dispatch_pending r client_id (func_call ∷ rest) d =
    elim (call_client_id func_call == 0 || r.is_tolerable func_call) [
      | true ↦ (
        true,
        dispatch_func_call client_id func_call (record d { pending_func_calls = rest }),
        dispatch client_id func_call ∷ [],
      )
      | false ↦
          let (given, d', out) = dispatch_pending r client_id rest d in
          (given, d', discard func_call ∷ out)
    ]

-- `std::clamp`
abbrev pub clamp : ℕ → ℕ → ℕ → ℕ
clamp v lo hi = if ltb v lo then lo else if ltb hi v then hi else v

-- `DetermineConcurrencyLimit`
unfoldable pub determine_concurrency_limit : Readings → Dispatcher → ℕ
determine_concurrency_limit r d =
    if r.concurrency_limiter_disabled
    then d.max_workers
    else clamp r.estimated_limit d.min_workers d.max_workers

-- Does the interval between two requests forbid one?
unfoldable pub is_held_back : Readings → Option ℕ → Bool
is_held_back r none = false
is_held_back r (some last) =
    ltb 0 r.min_worker_request_interval_ms
    && ltb (last + r.min_worker_request_interval_ms * 1000) r.now

unfoldable pub request_worker : Readings → Option ℕ → Dispatcher → Dispatcher
request_worker r none d = d
request_worker r (some client_id) d = record d {
  requested_workers = insert client_id r.now d.requested_workers;
  last_request_worker_timestamp = some r.now;
}

-- `MayRequestNewFuncWorker`
unfoldable pub may_request_new_func_worker : Readings → Dispatcher → Dispatcher
unfolding request_worker
may_request_new_func_worker r d =
    let total = length d.workers + length d.requested_workers in
    if leb d.max_workers total
    then d
    else if is_held_back r d.last_request_worker_timestamp
    then d
    else if not r.always_request_worker && leb r.expected_concurrency total
    then d
    else request_worker r r.offered_worker d

-- The loop of `PickIdleWorker`.
unfoldable pub pick_from : Readings → List ℕ → Dispatcher → Option ℕ × Dispatcher
pick_from r [] d = (none, may_request_new_func_worker r (record d { idle_workers = [] }))
pick_from r (client_id ∷ rest) d =
    elim (contains client_id d.workers && not (contains client_id d.running_workers)) [
      | true ↦ (some client_id, record d { idle_workers = rest })
      | false ↦ pick_from r rest d
    ]

-- `PickIdleWorker`
unfoldable pub pick_idle_worker : Readings → Dispatcher → Option ℕ × Dispatcher
pick_idle_worker r d =
    if leb (determine_concurrency_limit r d) (length d.running_workers)
    then (none, d)
    else pick_from r d.idle_workers d

-- A worker without a call takes one that waits or becomes idle.
unfoldable pub give_work : Readings → ℕ → Dispatcher → Dispatcher × List Output
give_work r client_id d =
    let (given, d', out) = dispatch_pending r client_id d.pending_func_calls d in
    if given then (d', out) else (record d' { idle_workers = client_id ∷ d'.idle_workers }, out)

-- `OnFuncWorkerConnected`
unfoldable pub on_func_worker_connected : Readings → ℕ → Dispatcher → Dispatcher × List Output
on_func_worker_connected r client_id d = give_work r client_id (record d {
  workers = insert client_id tt d.workers;
  requested_workers = erase client_id d.requested_workers;
})

-- `OnFuncWorkerDisconnected`
unfoldable pub on_func_worker_disconnected : ℕ → Dispatcher → Result Dispatcher
on_func_worker_disconnected client_id d =
    if contains client_id d.running_workers
    then panic
    else ok (record d { workers = erase client_id d.workers })

unfoldable pub place : ℕ → Option ℕ × Dispatcher → Dispatcher × List Output
place func_call (none, d) =
    (record d { pending_func_calls = d.pending_func_calls ++ func_call ∷ [] }, [])
place func_call (some client_id, d) =
    (dispatch_func_call client_id func_call d, dispatch client_id func_call ∷ [])

-- `OnNewFuncCall`
unfoldable pub on_new_func_call : Readings → ℕ → Dispatcher → Dispatcher × List Output
unfolding place
on_new_func_call r func_call d = place func_call (pick_idle_worker r d)

-- `FuncWorkerFinished`
unfoldable pub func_worker_finished : Readings → ℕ → Dispatcher → Dispatcher × List Output
func_worker_finished r client_id d =
    give_work r client_id (record d { running_workers = erase client_id d.running_workers })

-- The part that the end of a call, completed or failed, has for an assigned call.
unfoldable pub release : Readings → ℕ → ℕ → Dispatcher → Dispatcher × List Output
release r func_call client_id d =
    if contains client_id d.workers
    then (let (d', out) = func_worker_finished r client_id d in
        (record d' { assigned_workers = erase func_call d'.assigned_workers }, out))
    else (record d { assigned_workers = erase func_call d.assigned_workers }, [])

unfoldable pub release_if : Readings → ℕ → Option ℕ → Dispatcher → Dispatcher × List Output
release_if r func_call none d = (d, [])
release_if r func_call (some client_id) d = release r func_call client_id d

-- `OnFuncCallCompleted`. The flag says whether the tracer knows the call.
unfoldable pub on_func_call_completed :
    Readings → Bool → ℕ → Dispatcher → Bool × Dispatcher × List Output
on_func_call_completed r false func_call d = (false, d, [])
on_func_call_completed r true func_call d =
    let (d', out) = release_if r func_call (lookup func_call d.assigned_workers) d in
    (true, d', out)

-- `OnFuncCallFailed`
unfoldable pub on_func_call_failed :
    Readings → Bool → ℕ → Dispatcher → Bool × Dispatcher × List Output
on_func_call_failed r false func_call d = (false, d, [])
on_func_call_failed r true func_call d =
    let (d', out) = release_if r func_call (lookup func_call d.assigned_workers) d in
    (true, d', out)
