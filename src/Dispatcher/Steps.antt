-- ===== src/Dispatcher/Steps.antt =====
-- The dispatcher keeps its invariant from step to step.
use boki.Base.{
  ℕ, List, [], ◌∷◌, none, some, Bool, true, false, ◌||◌, ◌≡◌, ◌⊎◌, ◌↔◌, ==_iff, inl, inr, refl, sym,
  ap, ◌∙◌, subst, ◌==◌, if◌then◌else◌, elem, lookup, contains, contains-lookup, contains-insert,
  contains-erase, insert, lookup-insert, erase, lookup-erase, ok, panic, ok-injective, Option-cases,
  arith,
}
use boki.Dispatcher.{
  Readings, Dispatcher, dispatcher, Output, dispatch_func_call, dispatch_pending, pick_from,
  pick_idle_worker, give_work, on_func_worker_connected, on_func_worker_disconnected,
  on_new_func_call, place, func_worker_finished, release, release_if, on_func_call_completed,
  on_func_call_failed, determine_concurrency_limit, may_request_new_func_worker, call_client_id,
  is_held_back, request_worker,
}
use boki.Dispatcher.Sound.{IsSound, drop-IsSound, give-IsSound, end-IsSound, same-IsSound}

-- What the maps hold, with the assignments of some calls left out.
abbrev SoundBut : (ℕ → Bool) → Dispatcher → Type 0
SoundBut masked d =
    IsSound (λ c. contains c d.workers) (λ c. lookup c d.running_workers)
      (λ f. if masked f then none else lookup f d.assigned_workers) d.pending_func_calls

abbrev pub SoundState : Dispatcher → Type 0
SoundState d =
    IsSound (λ c. contains c d.workers) (λ c. lookup c d.running_workers)
      (λ f. lookup f d.assigned_workers) d.pending_func_calls

module _ (r : Readings) (c : ℕ) (masked : ℕ → Bool) where
  dispatch_pending-SoundBut :
      (ps : List ℕ) (d : Dispatcher)
      → SoundBut masked (record d { pending_func_calls = ps })
      → contains c d.workers ≡ true
      → lookup c d.running_workers ≡ none
      → ((f : ℕ) → elem f ps ≡ true → masked f ≡ false)
      → SoundBut masked (dispatch_pending r c ps d).1
  unfolding dispatch_pending dispatch_func_call
  dispatch_pending-SoundBut [] d s here free clear = s
  dispatch_pending-SoundBut (f ∷ ps) d s here free clear =
      go (call_client_id f == 0 || r.is_tolerable f) (
        dispatch_pending-SoundBut ps d (drop-IsSound f ps s) here free
          (λ g e. clear g (ground (arith, e))))
    where
      given_to :
          (x : ℕ)
          → masked f ≡ false
          → (if masked x then none else lookup x (insert f c d.assigned_workers))
            ≡ (if f == x then some c else (if masked x then none else lookup x d.assigned_workers))
      given_to x e =
          ap (λ o. if masked x then none else o) (lookup-insert f x c d.assigned_workers)
          ∙ choose (f == x) (==_iff f x)
        where
          choose :
              (b : Bool)
              → (b ≡ true ↔ f ≡ x)
              → (if masked x then none else (if b then some c else lookup x d.assigned_workers))
                ≡ (if b then some c else (if masked x then none else lookup x d.assigned_workers))
          choose true same = rw (sym (ap masked (same.0 refl)) ∙ e) refl
          choose false same = refl

      go :
          (b : Bool)
          → SoundBut masked (dispatch_pending r c ps d).1
          → SoundBut masked
              (elim b as (λ _. Bool × Dispatcher × List Output) [
                | true ↦ (
                  true,
                  dispatch_func_call c f (record d { pending_func_calls = ps }),
                  boki.Dispatcher.dispatch c f ∷ [],
                )
                | false ↦
                    let (given, d', out) = dispatch_pending r c ps d in
                    (given, d', boki.Dispatcher.discard f ∷ out)
              ]).1
      go true later =
          give-IsSound c f ps (λ x. lookup x (insert c f d.running_workers))
            (λ x. if masked x then none else lookup x (insert f c d.assigned_workers)) s here free
            (λ x. lookup-insert c x f d.running_workers) (λ x. given_to x (clear f (ground arith)))
      go false later = later

  give_work-SoundBut :
      (d : Dispatcher)
      → SoundBut masked d
      → contains c d.workers ≡ true
      → lookup c d.running_workers ≡ none
      → ((f : ℕ) → elem f d.pending_func_calls ≡ true → masked f ≡ false)
      → SoundBut masked (give_work r c d).0
  unfolding give_work
  give_work-SoundBut d s here free clear =
      go (dispatch_pending r c d.pending_func_calls d).0
        (dispatch_pending-SoundBut d.pending_func_calls d s here free clear)
    where
      go :
          (b : Bool)
          → SoundBut masked (dispatch_pending r c d.pending_func_calls d).1
          → SoundBut masked
              (if◌then◌else◌ {A = Dispatcher × List Output} b
                (
                  (dispatch_pending r c d.pending_func_calls d).1,
                  (dispatch_pending r c d.pending_func_calls d).2,
                )
                (
                  record ((dispatch_pending r c d.pending_func_calls d).1) {
                    idle_workers =
                        c ∷ ((dispatch_pending r c d.pending_func_calls d).1).idle_workers;
                  },
                  (dispatch_pending r c d.pending_func_calls d).2,
                )).0
      go true s = s
      go false s = s

pub on_func_worker_connected-SoundState :
    (r : Readings) (c : ℕ) (d : Dispatcher)
    → SoundState d
    → contains c d.workers ≡ false
    → SoundState (on_func_worker_connected r c d).0
unfolding on_func_worker_connected
on_func_worker_connected-SoundState r c d s new =
    give_work-SoundBut r c (λ f. false)
      (record d {
        workers = insert c tt d.workers;
        requested_workers = erase c d.requested_workers;
      })
      (same-IsSound d.pending_func_calls (λ x. contains x (insert c tt d.workers))
        (λ x. lookup x d.running_workers) (λ f. lookup f d.assigned_workers) s
        (λ x y e h. contains-insert c x tt d.workers ∙ ground (arith, h)) (λ x. refl) (λ x. refl))
      (contains-insert c c tt d.workers ∙ ground arith)
      (idle (Option-cases (lookup c d.running_workers))) (λ f e. refl)
  where
    idle :
        (lookup c d.running_workers ≡ none) ⊎ ((f : ℕ) × (lookup c d.running_workers ≡ some f))
        → lookup c d.running_workers ≡ none
    idle (inl e) = e
    idle (inr (f, e)) = let there : contains c d.workers ≡ true = s.connected c f e in cc

pub on_func_worker_disconnected-SoundState :
    (c : ℕ) (d d' : Dispatcher)
    → SoundState d
    → on_func_worker_disconnected c d ≡ ok d'
    → SoundState d'
unfolding on_func_worker_disconnected
on_func_worker_disconnected-SoundState c d d' s h = go (contains c d.running_workers) refl h
  where
    go :
        (b : Bool)
        → contains c d.running_workers ≡ b
        → (if b then panic else ok (record d { workers = erase c d.workers })) ≡ ok d'
        → SoundState d'
    go true e h = cc
    go false e h = subst SoundState (ok-injective h) (
        same-IsSound d.pending_func_calls (λ x. contains x (erase c d.workers))
          (λ x. lookup x d.running_workers) (λ f. lookup f d.assigned_workers) s
          (λ x y at h. contains-erase c x d.workers ∙ stays x y at h (c == x) (==_iff c x))
          (λ x. refl) (λ x. refl))
      where
        stays :
            (x y : ℕ)
            → lookup x d.running_workers ≡ some y
            → contains x d.workers ≡ true
            → (b : Bool) → (b ≡ true ↔ c ≡ x)
            → (if b then false else contains x d.workers) ≡ true
        stays x y at h true same =
            let running : contains x d.running_workers ≡ true =
              contains-lookup x d.running_workers ∙ rw at refl in
            let idle : contains x d.running_workers ≡ false =
              subst (λ z. contains z d.running_workers ≡ false) (same.0 refl) e in
            cc
        stays x y at h false same = h

pub release-SoundState :
    (r : Readings) (f c : ℕ) (d : Dispatcher)
    → SoundState d
    → lookup f d.assigned_workers ≡ some c
    → SoundState (release r f c d).0
unfolding release func_worker_finished
release-SoundState r f c d s was = go (contains c d.workers) (s.connected c f (s.runs c f was))
  where
    differs :
        (x : ℕ) → lookup x d.assigned_workers ≡ none → (b : Bool) → (b ≡ true ↔ f ≡ x) → b ≡ false
    differs x e true same =
        let gone : lookup f d.assigned_workers ≡ none =
          ap (λ z. lookup z d.assigned_workers) (same.0 refl) ∙ e in
        cc
    differs x e false same = refl

    d₁ : Dispatcher
    d₁ = record d { running_workers = erase c d.running_workers }

    ended : SoundBut (λ x. f == x) d₁
    ended =
        end-IsSound c f d.pending_func_calls (λ x. lookup x (erase c d.running_workers))
          (λ x. if f == x then none else lookup x d.assigned_workers) s was
          (λ x. lookup-erase c x d.running_workers) (λ x. refl)

    after : Dispatcher
    after = (give_work r c d₁).0

    kept : SoundBut (λ x. f == x) after
    kept =
        give_work-SoundBut r c (λ x. f == x) d₁ ended (s.connected c f (s.runs c f was))
          (lookup-erase c c d.running_workers ∙ ground arith)
          (λ x e. differs x (s.waits x e) (f == x) (==_iff f x))

    go :
        (b : Bool)
        → b ≡ true
        → SoundState
            (if◌then◌else◌ {A = Dispatcher × List Output} b
              (
                record after { assigned_workers = erase f after.assigned_workers },
                (give_work r c d₁).1,
              )
              (record d { assigned_workers = erase f d.assigned_workers }, [])).0
    go true e =
        same-IsSound after.pending_func_calls (λ x. contains x after.workers)
          (λ x. lookup x after.running_workers) (λ x. lookup x (erase f after.assigned_workers))
          kept (λ x y _ h. h) (λ x. refl) (λ x. lookup-erase f x after.assigned_workers)
    go false e = cc
