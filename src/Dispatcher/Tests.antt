-- ===== src/Dispatcher/Tests.antt =====
-- A worker, two calls, and the end of the first.
use boki.Base.{[], ◌∷◌, none, some, true, false, ◌≡◌, refl, lookup, contains, insert, erase, ◌==◌}
use boki.Dispatcher.{
  Readings, Dispatcher, dispatcher, dispatch_func_call, dispatch_pending, on_func_worker_connected,
  on_new_func_call, on_func_call_completed, give_work, pick_idle_worker, pick_from,
  determine_concurrency_limit, place, release_if, release, func_worker_finished,
  may_request_new_func_worker, is_held_back, request_worker,
}
use boki.Dispatcher.Sound.{IsSound}
use boki.Dispatcher.Reach.{
  connects, arrives, completes, Reach, here, next, calls_run_once, IsServed, queue_is_in_order,
}

abbrev readings : Readings
readings = record {
  now = 100;
  is_tolerable = λ f. true;
  concurrency_limiter_disabled = false;
  estimated_limit = 8;
  expected_concurrency = 1;
  always_request_worker = false;
  min_worker_request_interval_ms = 0;
  offered_worker = none;
}

abbrev first : Dispatcher
first = (on_func_worker_connected readings 7 (dispatcher 0 4)).0

abbrev second : Dispatcher
second = (on_new_func_call readings 0x10001 first).0

abbrev third : Dispatcher
third = (on_new_func_call readings 0x10002 second).0

abbrev fourth : Dispatcher
fourth = (on_func_call_completed readings true 0x10001 third).1

run : Reach (dispatcher 0 4) fourth
unfolding lookup contains on_func_worker_connected give_work dispatch_pending on_new_func_call
    pick_idle_worker determine_concurrency_limit pick_from insert dispatch_func_call
run =
    next
      (next (next (next here (connects readings 7 refl)) (arrives readings 0x10001 refl refl))
        (arrives readings 0x10002 refl refl))
      (completes readings true 0x10001)

calls_run_once_example :
    IsSound
      (λ c. contains c fourth.workers)
      (λ c. lookup c fourth.running_workers)
      (λ f. lookup f fourth.assigned_workers)
      fourth.pending_func_calls
calls_run_once_example = calls_run_once 0 4 run

second_call_runs : lookup 7 fourth.running_workers ≡ some 0x10002
unfolding lookup on_func_call_completed release_if on_new_func_call pick_idle_worker
    determine_concurrency_limit on_func_worker_connected give_work dispatch_pending pick_from
    contains insert dispatch_func_call may_request_new_func_worker erase is_held_back release
    func_worker_finished place request_worker
second_call_runs = refl

-- Only call 0x1_0003 is not too late.
abbrev late_readings : Readings
late_readings = record readings { is_tolerable = λ f. f == 0x1_0003 }

queue_is_in_order_example :
    IsServed late_readings 7
      (0x1_4002 ∷ 0x1_0003 ∷ [])
      first
      (dispatch_pending late_readings 7 (0x1_4002 ∷ 0x1_0003 ∷ []) first)
queue_is_in_order_example = queue_is_in_order late_readings 7 (0x1_4002 ∷ 0x1_0003 ∷ []) first
