-- ===== src/Dispatcher/Sound.antt =====
-- The invariant of the dispatcher, on what its maps hold.
use boki.Base.{
  ℕ, List, [], ◌∷◌, ◌++◌, Option, none, some, Bool, true, false, ◌≡◌, ◌↔◌, refl, sym, ◌∙◌, subst,
  ◌==◌, ==_iff, if◌then◌else◌, elem, arith,
}

abbrev pub IsDistinct : List ℕ → Type 0
IsDistinct [] = Unit
IsDistinct (x ∷ xs) = (elem x xs ≡ false) × IsDistinct xs

-- Running workers are connected, and each runs the call that is assigned to it; a call that waits is
-- not assigned and waits once.
pub record IsSound (workers : ℕ → Bool) (running assigned : ℕ → Option ℕ) (pending : List ℕ)
    : Type 0 where
  pub connected : (c f : ℕ) → running c ≡ some f → workers c ≡ true
  pub assigned_to : (c f : ℕ) → running c ≡ some f → assigned f ≡ some c
  pub runs : (c f : ℕ) → assigned f ≡ some c → running c ≡ some f
  pub waits : (f : ℕ) → elem f pending ≡ true → assigned f ≡ none
  pub distinct : IsDistinct pending

elem-snoc : (x y : ℕ) (ys : List ℕ) → elem x (ys ++ y ∷ []) ≡ (if elem x ys then true else y == x)
elem-snoc x y [] = ground arith
elem-snoc x y (z ∷ ys) = ground (arith, elem-snoc x y ys)

snoc-IsDistinct :
    (y : ℕ) (ys : List ℕ) → IsDistinct ys → elem y ys ≡ false → IsDistinct (ys ++ y ∷ [])
snoc-IsDistinct y [] h new = (refl, tt)
snoc-IsDistinct y (z ∷ ys) h new =
    (grind (arith, elem-snoc z y ys, h.0, new), snoc-IsDistinct y ys h.1 (ground (arith, new)))

module _ {workers : ℕ → Bool} {running assigned : ℕ → Option ℕ} where
  -- A waiting call goes.
  pub drop-IsSound :
      (f : ℕ) (pending : List ℕ)
      → IsSound workers running assigned (f ∷ pending)
      → IsSound workers running assigned pending
  drop-IsSound f pending s = record {
    connected = s.connected;
    assigned_to = s.assigned_to;
    runs = s.runs;
    waits = λ g e. s.waits g (ground (arith, e));
    distinct = s.distinct.1;
  }

  -- A waiting call is given to a worker that runs nothing.
  pub give-IsSound :
      (c f : ℕ) (pending : List ℕ) (running' assigned' : ℕ → Option ℕ)
      → IsSound workers running assigned (f ∷ pending)
      → workers c ≡ true
      → running c ≡ none
      → ((x : ℕ) → running' x ≡ (if c == x then some f else running x))
      → ((x : ℕ) → assigned' x ≡ (if f == x then some c else assigned x))
      → IsSound workers running' assigned' pending
  give-IsSound c f pending running' assigned' s here free ran gave =
      let fresh : assigned f ≡ none = s.waits f (ground arith) in
      record {
        connected = λ c' g e. grind (arith, s.connected c' g, ran c', here, e);
        assigned_to = λ c' g e.
            grind (arith, s.assigned_to c' g, s.assigned_to c g, ran c', gave g, fresh, e);
        runs = λ c' g e.
            grind (arith, s.runs c' g, s.assigned_to c' g, ran c', gave g, free, fresh, e);
        waits = λ g e. grind (arith, s.waits g, s.distinct.0, gave g, e);
        distinct = s.distinct.1;
      }

  -- A call ends.
  pub end-IsSound :
      (c f : ℕ) (pending : List ℕ) (running' assigned' : ℕ → Option ℕ)
      → IsSound workers running assigned pending
      → assigned f ≡ some c
      → ((x : ℕ) → running' x ≡ (if c == x then none else running x))
      → ((x : ℕ) → assigned' x ≡ (if f == x then none else assigned x))
      → IsSound workers running' assigned' pending
  end-IsSound c f pending running' assigned' s was ran gave = record {
    connected = λ c' g e. grind (arith, s.connected c' g, ran c', e);
    assigned_to = λ c' g e. grind (arith, s.assigned_to c' g, s.runs c f, was, ran c', gave g, e);
    runs =
        λ c' g e. grind (arith, s.runs c' g, s.assigned_to c g, s.runs c f, was, ran c', gave g, e);
    waits = λ g e. grind (arith, s.waits g, gave g, e);
    distinct = s.distinct;
  }

  -- Only what the maps hold counts.
  pub same-IsSound :
      (pending : List ℕ) (workers' : ℕ → Bool) (running' assigned' : ℕ → Option ℕ)
      → IsSound workers running assigned pending
      → ((x y : ℕ) → running x ≡ some y → workers x ≡ true → workers' x ≡ true)
      → ((x : ℕ) → running' x ≡ running x)
      → ((x : ℕ) → assigned' x ≡ assigned x)
      → IsSound workers' running' assigned' pending
  same-IsSound pending workers' running' assigned' s stay ran gave = record {
    connected = λ c f e. stay c f (sym (ran c) ∙ e) (s.connected c f (sym (ran c) ∙ e));
    assigned_to = λ c f e. gave f ∙ s.assigned_to c f (sym (ran c) ∙ e);
    runs = λ c f e. ran c ∙ s.runs c f (sym (gave f) ∙ e);
    waits = λ f e. gave f ∙ s.waits f e;
    distinct = s.distinct;
  }

  -- A new call waits.
  pub wait-IsSound :
      (f : ℕ) (pending : List ℕ)
      → IsSound workers running assigned pending
      → assigned f ≡ none
      → elem f pending ≡ false
      → IsSound workers running assigned (pending ++ f ∷ [])
  wait-IsSound f pending s fresh new = record {
    connected = s.connected;
    assigned_to = s.assigned_to;
    runs = s.runs;
    waits = λ g e. grind (arith, s.waits g, fresh, e, elem-snoc g f pending);
    distinct = snoc-IsDistinct f pending s.distinct new;
  }

  -- So does a new call in front.
  pub cons-IsSound :
      (f : ℕ) (pending : List ℕ)
      → IsSound workers running assigned pending
      → assigned f ≡ none
      → elem f pending ≡ false
      → IsSound workers running assigned (f ∷ pending)
  cons-IsSound f pending s fresh new = record {
    connected = s.connected;
    assigned_to = s.assigned_to;
    runs = s.runs;
    waits = λ g e. in_front g (f == g) (==_iff f g) e;
    distinct = (new, s.distinct);
  }
    where
      in_front :
          (g : ℕ) (b : Bool)
          → (b ≡ true ↔ f ≡ g)
          → (if b then true else elem g pending) ≡ true
          → assigned g ≡ none
      in_front g true same e = subst (λ x. assigned x ≡ none) (same.0 refl) fresh
      in_front g false same e = s.waits g e
