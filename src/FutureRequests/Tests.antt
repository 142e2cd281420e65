-- ===== src/FutureRequests/Tests.antt =====
-- Two requests for view 5 at a node that waits for view 3 and holds nothing else.
use boki.Base.{
  ℕ, ◌+◌, [], ◌∷◌, ◌++◌, none, true, false, ◌≡◌, inl, inr, refl, ok, panic, lookup, arith,
}
use boki.Bits.{u16}
use boki.FutureRequests.{FutureRequests, held, on_new_view, hold_all, pass_views}
use boki.FutureRequests.Arrival.{HavePlaces, held_requests_arrive}

abbrev early : FutureRequests ℕ
early = record { next_view_id = 3; onhold_requests = [] }

-- The node is in view 3 and not in view 4.
places : HavePlaces {R = ℕ} (true ∷ false ∷ []) 3 []
unfolding lookup
places = (inl refl, (inr refl, tt))

held_requests_arrive_example :
    (s₁ : FutureRequests ℕ) × (hold_all 5 (80 ∷ 81 ∷ []) early ≡ ok s₁)
    × (s₂ : FutureRequests ℕ) × (pass_views (true ∷ false ∷ []) s₁ ≡ ok s₂)
    × (s₃ : FutureRequests ℕ) × (on_new_view 5 true s₂ ≡ ok (held 5 early ++ 80 ∷ 81 ∷ [], s₃))
    × (s₃.next_view_id ≡ u16 (5 + 1))
    × (lookup 5 s₃.onhold_requests ≡ none)
held_requests_arrive_example =
    held_requests_arrive (true ∷ false ∷ []) 5 true 80 (81 ∷ []) early (omega arith) (omega arith)
      places

-- A node that is not in view 5 cannot take the requests that it holds for it.
has_no_place :
    on_new_view 5 false (record early { next_view_id = 5; onhold_requests = (5, 80 ∷ []) ∷ [] })
    ≡ panic
unfolding on_new_view lookup
has_no_place = refl
