-- ===== src/Dispatcher/Pick.antt =====
-- The choice of a worker for a new call.
use boki.Base.{
  ℕ, ◌+◌, List, [], ◌∷◌, Option, none, some, Bool, true, false, not, ◌&&◌, ◌≡◌, refl, sym, ap, ◌∙◌,
  subst, leb, length, if◌then◌else◌, elem, Map, lookup, contains, contains-lookup, insert,
  lookup-insert, some-injective,
}
use boki.Dispatcher.{
  Readings, Dispatcher, dispatch_func_call, pick_from, pick_idle_worker, on_new_func_call, place,
  determine_concurrency_limit, may_request_new_func_worker, is_held_back, request_worker,
}
use boki.Dispatcher.Sound.{IsSound, give-IsSound, same-IsSound, wait-IsSound, cons-IsSound}
use boki.Dispatcher.Steps.{SoundState}

-- Choosing a worker changes nothing that the invariant reads, and gives one that is connected and idle.
record Picked (d : Dispatcher) (chosen : Option ℕ) (d' : Dispatcher) : Type 0 where
  workers : d'.workers ≡ d.workers
  running : d'.running_workers ≡ d.running_workers
  assigned : d'.assigned_workers ≡ d.assigned_workers
  pending : d'.pending_func_calls ≡ d.pending_func_calls
  here : (c : ℕ) → chosen ≡ some c → contains c d.workers ≡ true
  idle : (c : ℕ) → chosen ≡ some c → lookup c d.running_workers ≡ none

unchanged-Picked : (d : Dispatcher) → Picked d none d
unchanged-Picked d = record {
  workers = refl;
  running = refl;
  assigned = refl;
  pending = refl;
  here = λ c e. cc;
  idle = λ c e. cc;
}

if-Picked :
    (d : Dispatcher) (b : Bool) (d₁ d₂ : Dispatcher)
    → Picked d none d₁
    → Picked d none d₂
    → Picked d none (if b then d₁ else d₂)
if-Picked d true d₁ d₂ p q = p
if-Picked d false d₁ d₂ p q = q

may_request_new_func_worker-Picked :
    (r : Readings) (d : Dispatcher) → Picked d none (may_request_new_func_worker r d)
unfolding may_request_new_func_worker request_worker
may_request_new_func_worker-Picked r d =
    let same = unchanged-Picked d in
    let total = length d.workers + length d.requested_workers in
    if-Picked d (leb d.max_workers total) _ _ same (
      if-Picked d (is_held_back r d.last_request_worker_timestamp) _ _ same (
        if-Picked d (not r.always_request_worker && leb r.expected_concurrency total) _ _ same
          (asked r.offered_worker)))
  where
    asked : (o : Option ℕ) → Picked d none (request_worker r o d)
    asked none = unchanged-Picked d
    asked (some c) = record {
      workers = refl;
      running = refl;
      assigned = refl;
      pending = refl;
      here = λ c e. cc;
      idle = λ c e. cc;
    }

both_true : (a b : Bool) → (a && b) ≡ true → (a ≡ true) × (b ≡ true)
both_true true b e = (refl, e)
both_true false b e = cc

absent : (c : ℕ) (m : Map ℕ) → not (contains c m) ≡ true → lookup c m ≡ none
absent c m e = go (lookup c m) (ap not (sym (contains-lookup c m)) ∙ e)
  where
    go : (o : Option ℕ) → not (elim o [ none ↦ false | some _ ↦ true ]) ≡ true → o ≡ none
    go none e = refl
    go (some x) e = cc

pick_from-Picked :
    (r : Readings) (cs : List ℕ) (d : Dispatcher)
    → Picked d (pick_from r cs d).0 (pick_from r cs d).1
unfolding pick_from
pick_from-Picked r [] d =
    let p = may_request_new_func_worker-Picked r (record d { idle_workers = [] }) in
    record {
      workers = p.workers;
      running = p.running;
      assigned = p.assigned;
      pending = p.pending;
      here = λ c e. cc;
      idle = λ c e. cc;
    }
pick_from-Picked r (c ∷ cs) d =
    go (contains c d.workers && not (contains c d.running_workers)) refl (pick_from-Picked r cs d)
  where
    go :
        (b : Bool)
        → (contains c d.workers && not (contains c d.running_workers)) ≡ b
        → Picked d (pick_from r cs d).0 (pick_from r cs d).1
        → Picked d
            (elim b as (λ _. Option ℕ × Dispatcher) [
              | true ↦ (some c, record d { idle_workers = cs })
              | false ↦ pick_from r cs d
            ]).0
            (elim b as (λ _. Option ℕ × Dispatcher) [
              | true ↦ (some c, record d { idle_workers = cs })
              | false ↦ pick_from r cs d
            ]).1
    go true e p = record {
      workers = refl;
      running = refl;
      assigned = refl;
      pending = refl;
      here =
          λ x e'. subst (λ z. contains z d.workers ≡ true) (some-injective e') (both_true _ _ e).0;
      idle = λ x e'.
          subst (λ z. lookup z d.running_workers ≡ none) (some-injective e')
            (absent c d.running_workers (both_true _ _ e).1);
    }
    go false e p = p

pick_idle_worker-Picked :
    (r : Readings) (d : Dispatcher) → Picked d (pick_idle_worker r d).0 (pick_idle_worker r d).1
unfolding pick_idle_worker
pick_idle_worker-Picked r d = go (leb (determine_concurrency_limit r d) (length d.running_workers))
  where
    go :
        (b : Bool)
        → Picked d
            (if◌then◌else◌ {A = Option ℕ × Dispatcher} b (none, d) (pick_from r d.idle_workers d)).0
            (if◌then◌else◌ {A = Option ℕ × Dispatcher} b (none, d) (pick_from r d.idle_workers d)).1
    go true = unchanged-Picked d
    go false = pick_from-Picked r d.idle_workers d

-- A call that is neither assigned nor waiting is given to a worker or waits.
pub on_new_func_call-SoundState :
    (r : Readings) (f : ℕ) (d : Dispatcher)
    → SoundState d
    → lookup f d.assigned_workers ≡ none
    → elem f d.pending_func_calls ≡ false
    → SoundState (on_new_func_call r f d).0
unfolding on_new_func_call place dispatch_func_call
on_new_func_call-SoundState r f d s fresh new =
    go (pick_idle_worker r d).0 (pick_idle_worker r d).1 (pick_idle_worker-Picked r d)
  where
    moved : (o : Option ℕ) (d' : Dispatcher) → Picked d o d' → SoundState d'
    moved o d' p =
        subst
          (IsSound (λ x. contains x d'.workers) (λ x. lookup x d'.running_workers)
            (λ x. lookup x d'.assigned_workers))
          (sym p.pending)
          (same-IsSound d.pending_func_calls (λ x. contains x d'.workers)
            (λ x. lookup x d'.running_workers) (λ x. lookup x d'.assigned_workers) s
            (λ x y _ h. ap (contains x) p.workers ∙ h) (λ x. ap (lookup x) p.running)
            (λ x. ap (lookup x) p.assigned))

    go : (o : Option ℕ) (d' : Dispatcher) → Picked d o d' → SoundState (place f (o, d')).0
    go none d' p =
        wait-IsSound f d'.pending_func_calls (moved none d' p) (ap (lookup f) p.assigned ∙ fresh)
          (ap (elem f) p.pending ∙ new)
    go (some c) d' p =
        give-IsSound c f d'.pending_func_calls (λ x. lookup x (insert c f d'.running_workers))
          (λ x. lookup x (insert f c d'.assigned_workers))
          (cons-IsSound f d'.pending_func_calls (moved (some c) d' p)
            (ap (lookup f) p.assigned ∙ fresh) (ap (elem f) p.pending ∙ new))
          (ap (contains c) p.workers ∙ p.here c refl) (ap (lookup c) p.running ∙ p.idle c refl)
          (λ x. lookup-insert c x f d'.running_workers)
          (λ x. lookup-insert f x c d'.assigned_workers)
