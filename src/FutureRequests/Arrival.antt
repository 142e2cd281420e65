-- ===== src/FutureRequests/Arrival.antt =====
-- What becomes of the requests that are held for a view.
use boki.Base.{
  ℕ, ◌+◌, ◌≤◌, ◌<◌, ◌^◌, List, [], ◌∷◌, ◌++◌, none, some, Bool, true, ◌≡◌, refl, sym, ap, subst,
  ◌⊎◌, inl, inr, Option-cases, ◌∙◌, length, length-append, le→ltb, ◌==◌, ==_refl, if◌then◌else◌,
  Map, lookup, lookup-insert, lookup-erase, insert, erase, ok, panic, arith,
}
use boki.Bits.{u16}
use boki.FutureRequests.{
  FutureRequests, or_empty, held, on_new_view, on_hold_request, hold_all, pass_views,
}
use mathlib.Core.List.{append-nil, append_assoc}

module _ {R : Type 0} where
  -- From the view on, each view has a place for its requests or none are held for it.
  abbrev pub HavePlaces : List Bool → ℕ → Map (List R) → Type 0
  HavePlaces [] view_id m = Unit
  HavePlaces (has_place ∷ flags) view_id m =
      ((has_place ≡ true) ⊎ (lookup view_id m ≡ none)) × HavePlaces flags (view_id + 1) m

  -- The same requests are held for each view from `from` on and below `to`.
  abbrev Agree : ℕ → ℕ → Map (List R) → Map (List R) → Type 0
  Agree from to m m' = (v : ℕ) → from ≤ v → v < to → lookup v m' ≡ lookup v m

  HavePlaces-Agree :
      (flags : List Bool) (from to : ℕ) (m m' : Map (List R))
      → from + length flags ≡ to
      → Agree from to m m'
      → HavePlaces flags from m
      → HavePlaces flags from m'
  HavePlaces-Agree [] from to m m' e same p = tt
  HavePlaces-Agree (b ∷ flags) from to m m' e same p = (
    elim p.0 [
      | inl place ↦ inl place
      | inr empty ↦ inr (same from (omega arith) (omega (arith, e)) ∙ empty)
    ],
    HavePlaces-Agree flags (from + 1) to m m' (omega (arith, e)) (λ v h l. same v (omega arith) l)
        p.1,
  )

  hold_all_lem :
      (view_id : ℕ) (rs : List R) (s : FutureRequests R)
      → s.next_view_id ≤ view_id
      → (s' : FutureRequests R) × (hold_all view_id rs s ≡ ok s')
        × (s'.next_view_id ≡ s.next_view_id)
        × (held view_id s' ≡ held view_id s ++ rs)
        × Agree 0 view_id s.onhold_requests s'.onhold_requests
  unfolding hold_all on_hold_request
  hold_all_lem view_id [] s le = (s, refl, refl, sym (append-nil (held view_id s)), λ v h l. refl)
  hold_all_lem view_id (r ∷ rs) s le =
      let s₁ : FutureRequests R = record s {
        onhold_requests = insert view_id (held view_id s ++ r ∷ []) s.onhold_requests;
      } in
      let (s', e, next, h, same) = hold_all_lem view_id rs s₁ le in
      let here = ap or_empty (
        lookup-insert view_id view_id (held view_id s ++ r ∷ []) s.onhold_requests
        ∙ ap (λ b. if b then some (held view_id s ++ r ∷ []) else lookup view_id s.onhold_requests)
            (==_refl view_id)) in
      (
        s',
        rw (le→ltb view_id s.next_view_id le) e,
        next,
        h ∙ ap (λ l. l ++ rs) here ∙ append_assoc (held view_id s) (r ∷ []) rs,
        λ v from l.
            same v from l
            ∙ lookup-insert view_id v (held view_id s ++ r ∷ []) s.onhold_requests
            ∙ ground (arith, l),
      )

  -- A view with a place for its requests, or without requests.
  new_view_lem :
      (has_place : Bool) (s : FutureRequests R)
      → (has_place ≡ true) ⊎ (lookup s.next_view_id s.onhold_requests ≡ none)
      → (s' : FutureRequests R) × (on_new_view s.next_view_id has_place s
          ≡ ok (held s.next_view_id s, s'))
        × (s'.next_view_id ≡ u16 (s.next_view_id + 1))
        × ((v : ℕ) → s.next_view_id < v → lookup v s'.onhold_requests ≡ lookup v s.onhold_requests)
  unfolding on_new_view
  new_view_lem has_place s place = elim (Option-cases (lookup s.next_view_id s.onhold_requests)) [
    | inl e ↦ (
      record s { next_view_id = u16 (s.next_view_id + 1) },
      rw (==_refl s.next_view_id) (rw e refl),
      refl,
      λ v lt. refl,
    )
    | inr (rs, e) ↦ (
      record {
        next_view_id = u16 (s.next_view_id + 1);
        onhold_requests = erase s.next_view_id s.onhold_requests;
      },
      elim place [ inl given ↦ rw (==_refl s.next_view_id) (rw (e, given) refl) | inr empty ↦ cc ],
      refl,
      λ v lt. lookup-erase s.next_view_id v s.onhold_requests ∙ ground (arith, lt),
    )
  ]

  pass_views_lem :
      (flags : List Bool) (view_id : ℕ) (s : FutureRequests R)
      → s.next_view_id + length flags ≡ view_id
      → view_id < 2 ^ 16
      → HavePlaces flags s.next_view_id s.onhold_requests
      → (s' : FutureRequests R) × (pass_views flags s ≡ ok s')
        × (s'.next_view_id ≡ view_id)
        × (lookup view_id s'.onhold_requests ≡ lookup view_id s.onhold_requests)
  unfolding pass_views
  pass_views_lem [] view_id s e h p = (s, refl, omega (arith, e), refl)
  pass_views_lem (b ∷ flags) view_id s e h p =
      let (s₁, now, next, others) = new_view_lem b s p.0 in
      let at : s₁.next_view_id ≡ s.next_view_id + 1 = next ∙ omega (arith, e, h) in
      let p₁ =
        HavePlaces-Agree flags (s.next_view_id + 1) view_id s.onhold_requests s₁.onhold_requests
          (omega (arith, e)) (λ v from l. others v (omega arith)) p.1 in
      let (s', later, next', here) =
        pass_views_lem flags view_id s₁ (omega (arith, e, at)) h
          (subst (λ k. HavePlaces flags k s₁.onhold_requests) (sym at) p₁) in
      (s', rw now later, next', here ∙ others view_id (omega (arith, e)))

  -- The view itself: its requests come out if there is a place for them.
  this_view_lem :
      (view_id : ℕ) (has_place : Bool) (rs : List R) (s : FutureRequests R)
      → s.next_view_id ≡ view_id
      → lookup view_id s.onhold_requests ≡ some rs
      → on_new_view view_id has_place s ≡ (
          if has_place
          then ok (
            rs,
            record {
              next_view_id = u16 (view_id + 1);
              onhold_requests = erase view_id s.onhold_requests;
            },
          )
          else panic)
  unfolding on_new_view
  this_view_lem view_id has_place rs s at e =
      subst
        (λ v. on_new_view view_id has_place s ≡ (
          if has_place
          then ok (
            rs,
            record {
              next_view_id = u16 (v + 1);
              onhold_requests = erase view_id s.onhold_requests;
            },
          )
          else panic))
        at (rw (ap (λ v. view_id == v) at ∙ ==_refl view_id) (rw e refl))

  some_held :
      (view_id : ℕ) (s : FutureRequests R) (qs : List R) (r : R) (rs : List R)
      → held view_id s ≡ qs ++ r ∷ rs
      → lookup view_id s.onhold_requests ≡ some (qs ++ r ∷ rs)
  some_held view_id s qs r rs e = elim (Option-cases (lookup view_id s.onhold_requests)) [
    | inl absent ↦
        absurd (omega (arith, ap length (sym (ap or_empty absent) ∙ e), length-append qs (r ∷ rs)))
    | inr (l, got) ↦ got ∙ ap some (sym (ap or_empty got) ∙ e)
  ]

  -- Requests that are held for a view in the future wait while the views before it are created, each
  -- of which has a place for its requests or has none held for it. When the view itself is created
  -- with a place for its requests, they come out, all of them and in their order behind the ones
  -- already held for it, and are held no more; without a place, it panics.
  pub held_requests_arrive :
      (flags : List Bool) (view_id : ℕ) (has_place : Bool) (r : R) (rs : List R)
      (s : FutureRequests R)
      → s.next_view_id + length flags ≡ view_id
      → view_id < 2 ^ 16
      → HavePlaces flags s.next_view_id s.onhold_requests
      → (s₁ : FutureRequests R) × (hold_all view_id (r ∷ rs) s ≡ ok s₁)
        × (s₂ : FutureRequests R) × (pass_views flags s₁ ≡ ok s₂)
        × (s₃ : FutureRequests R) × (on_new_view view_id has_place s₂
            ≡ (if has_place then ok (held view_id s ++ r ∷ rs, s₃) else panic))
        × (s₃.next_view_id ≡ u16 (view_id + 1))
        × (lookup view_id s₃.onhold_requests ≡ none)
  held_requests_arrive flags view_id has_place r rs s e h p =
      let (s₁, holds, same, h₁, before) = hold_all_lem view_id (r ∷ rs) s (omega (arith, e)) in
      let p₁ =
        HavePlaces-Agree flags s.next_view_id view_id s.onhold_requests s₁.onhold_requests e
          (λ v from l. before v (omega arith) l) p in
      let (s₂, passes, at, h₂) =
        pass_views_lem flags view_id s₁ (omega (arith, e, same)) h
          (subst (λ k. HavePlaces flags k s₁.onhold_requests) (sym same) p₁) in
      (
        s₁,
        holds,
        s₂,
        passes,
        record {
          next_view_id = u16 (view_id + 1);
          onhold_requests = erase view_id s₂.onhold_requests;
        },
        this_view_lem view_id has_place (held view_id s ++ r ∷ rs) s₂ at
            (h₂ ∙ some_held view_id s₁ (held view_id s) r rs h₁),
        refl,
        lookup-erase view_id view_id s₂.onhold_requests ∙ rw (==_refl view_id) refl,
      )
