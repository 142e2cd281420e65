-- ===== src/Dispatcher/Reach.antt =====
-- Every state that a new dispatcher reaches, and the order in which calls leave the queue.
use boki.Base.{
  ℕ, List, [], ◌∷◌, ◌++◌, Option, none, some, Bool, true, false, ◌||◌, ◌≡◌, ◌⊎◌, inl, inr, refl, ap,
  ◌==◌, elem, All, map, lookup, contains, ok,
}
use boki.Dispatcher.{
  Readings, Dispatcher, dispatcher, Output, dispatch, discard, dispatch_func_call, dispatch_pending,
  call_client_id, on_func_worker_connected, on_func_worker_disconnected, on_new_func_call,
  release_if, on_func_call_completed, on_func_call_failed,
}
use boki.Dispatcher.Sound.{IsSound}
use boki.Dispatcher.Steps.{
  SoundState, on_func_worker_connected-SoundState, on_func_worker_disconnected-SoundState,
  release-SoundState,
}
use boki.Dispatcher.Pick.{on_new_func_call-SoundState}

-- The calls of a dispatcher: a worker that connects is not connected, and a new call is neither
-- assigned nor waiting.
pub data Step (d : Dispatcher) : Dispatcher → Type 0 where
  connects :
      (r : Readings) (c : ℕ)
      → contains c d.workers ≡ false
      → Step d (on_func_worker_connected r c d).0
  disconnects : (c : ℕ) {d' : Dispatcher} → on_func_worker_disconnected c d ≡ ok d' → Step d d'
  arrives :
      (r : Readings) (f : ℕ)
      → lookup f d.assigned_workers ≡ none
      → elem f d.pending_func_calls ≡ false
      → Step d (on_new_func_call r f d).0
  completes : (r : Readings) (known : Bool) (f : ℕ) → Step d (on_func_call_completed r known f d).1
  fails : (r : Readings) (known : Bool) (f : ℕ) → Step d (on_func_call_failed r known f d).1

pub data Reach (d : Dispatcher) : Dispatcher → Type 0 where
  here : Reach d d
  next : {e g : Dispatcher} → Reach d e → Step e g → Reach d g

release_if-SoundState :
    (r : Readings) (f : ℕ) (d : Dispatcher) (o : Option ℕ)
    → SoundState d
    → lookup f d.assigned_workers ≡ o
    → SoundState (release_if r f o d).0
unfolding release_if
release_if-SoundState r f d none s e = s
release_if-SoundState r f d (some c) s e = release-SoundState r f c d s e

Step-SoundState : {d e : Dispatcher} → Step d e → SoundState d → SoundState e
unfolding on_func_call_completed on_func_call_failed
Step-SoundState {d} (connects r c new) s = on_func_worker_connected-SoundState r c d s new
Step-SoundState {d} {e} (disconnects c h) s = on_func_worker_disconnected-SoundState c d e s h
Step-SoundState {d} (arrives r f fresh new) s = on_new_func_call-SoundState r f d s fresh new
Step-SoundState {d} (completes r true f) s =
    release_if-SoundState r f d (lookup f d.assigned_workers) s refl
Step-SoundState (completes r false f) s = s
Step-SoundState {d} (fails r true f) s =
    release_if-SoundState r f d (lookup f d.assigned_workers) s refl
Step-SoundState (fails r false f) s = s

Reach-SoundState : {d e : Dispatcher} → Reach d e → SoundState d → SoundState e
Reach-SoundState here s = s
Reach-SoundState (next r st) s = Step-SoundState st (Reach-SoundState r s)

-- In every state that a new dispatcher reaches when call ids are not used again while a call is
-- assigned or waits, each running worker is connected and runs the call that is assigned to it, each
-- assigned call is run by its worker, so that no call runs twice and no worker runs two calls, and
-- the calls that wait are distinct and not assigned.
pub calls_run_once :
    (min_workers max_workers : ℕ) {d : Dispatcher}
    → Reach (dispatcher min_workers max_workers) d
    → IsSound
        (λ c. contains c d.workers)
        (λ c. lookup c d.running_workers)
        (λ f. lookup f d.assigned_workers)
        d.pending_func_calls
unfolding lookup
calls_run_once min_workers max_workers r = Reach-SoundState r (record {
  connected = λ c f e. cc;
  assigned_to = λ c f e. cc;
  runs = λ c f e. cc;
  waits = λ f e. cc;
  distinct = tt;
})

abbrev pub goes : Readings → ℕ → Bool
goes r f = call_client_id f == 0 || r.is_tolerable f

-- The first call of the queue that may go is served, or none may.
abbrev pub IsServed : Readings → ℕ → List ℕ → Dispatcher → Bool × Dispatcher × List Output → Type 0
IsServed r c ps d result =
    ((late rest : List ℕ) × (f : ℕ) × (ps ≡ late ++ f ∷ rest)
      × All (λ g. goes r g ≡ false) late
      × (goes r f ≡ true)
      × (result ≡ (
        true,
        dispatch_func_call c f (record d { pending_func_calls = rest }),
        map discard late ++ dispatch c f ∷ [],
      )))
    ⊎ (All (λ g. goes r g ≡ false) ps
        × (result ≡ (false, record d { pending_func_calls = [] }, map discard ps)))

-- A worker that is free gets the first call of the queue that may still go, and the calls before it,
-- which have waited too long, are discarded in order; if there is no such call, all are discarded and
-- the queue is empty.
pub queue_is_in_order :
    (r : Readings) (c : ℕ) (ps : List ℕ) (d : Dispatcher)
    → IsServed r c ps d (dispatch_pending r c ps d)
unfolding dispatch_pending
queue_is_in_order r c [] d = inr (tt, refl)
queue_is_in_order r c (f ∷ ps) d = go (goes r f) refl (queue_is_in_order r c ps d)
  where
    go :
        (b : Bool)
        → goes r f ≡ b
        → IsServed r c ps d (dispatch_pending r c ps d)
        → IsServed r c (f ∷ ps) d (elim b as (λ _. Bool × Dispatcher × List Output) [
          | true ↦ (
            true,
            dispatch_func_call c f (record d { pending_func_calls = ps }),
            dispatch c f ∷ [],
          )
          | false ↦ let (given, d', out) = dispatch_pending r c ps d in (given, d', discard f ∷ out)
        ])
    go true e ih = inl ([], ps, f, refl, tt, e, refl)
    go false e (inl (late, rest, g, queue, were_late, in_time, same)) = inl (
      f ∷ late,
      rest,
      g,
      ap (λ l. f ∷ l) queue,
      (e, were_late),
      in_time,
      ap (λ (x : Bool × Dispatcher × List Output). (x.0, x.1, discard f ∷ x.2)) same,
    )
    go false e (inr (were_late, same)) = inr (
      (e, were_late),
      ap (λ (x : Bool × Dispatcher × List Output). (x.0, x.1, discard f ∷ x.2)) same,
    )
