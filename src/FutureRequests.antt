-- ===== src/FutureRequests.antt =====
-- src/log/utils.h and src/log/utils.cpp, class `FutureRequests`: requests for views that a node has
-- not seen. The lock makes each call one step. A request is any type.
pub mod Arrival
mod Tests
use boki.Base.{
  ℕ, zero, suc, ◌+◌, ◌≤◌, ◌<◌, ◌^◌, List, [], ◌∷◌, ◌++◌, Option, none, some, Bool, true, false, not,
  ◌≡◌, refl, sym, ap, subst, ◌⊎◌, inl, inr, Option-cases, ◌∙◌, ltb, le→ltb, ◌==◌, ==_iff, ==_refl,
  if◌then◌else◌, Map, lookup, lookup-insert, lookup-erase, insert, erase, Result, ok, panic, ◌>>=◌,
  arith,
}
use boki.Bits.{u16}
use mathlib.Core.List.{append-nil, append_assoc}

pub record FutureRequests (R : Type 0) : Type 0 where
  pub next_view_id : ℕ
  pub onhold_requests : Map (List R)

module _ {R : Type 0} where
  abbrev pub or_empty : Option (List R) → List R
  or_empty none = []
  or_empty (some rs) = rs

  -- `onhold_requests_[view_id]`
  abbrev pub held : ℕ → FutureRequests R → List R
  held view_id s = or_empty (lookup view_id s.onhold_requests)

  -- `OnNewView`. The flag says whether there is a place for the requests that become ready.
  unfoldable pub on_new_view : ℕ → Bool → FutureRequests R → Result (List R × FutureRequests R)
  on_new_view view_id has_place s =
      if not (view_id == s.next_view_id) then panic else (elim (lookup view_id s.onhold_requests) [
        | none ↦ ok ([], record s { next_view_id = u16 (s.next_view_id + 1) })
        | some rs ↦
            if has_place
            then ok (
              rs,
              record {
                next_view_id = u16 (s.next_view_id + 1);
                onhold_requests = erase view_id s.onhold_requests;
              },
            )
            else panic
      ])

  -- `OnHoldRequest`
  unfoldable pub on_hold_request : ℕ → R → FutureRequests R → Result (FutureRequests R)
  on_hold_request view_id request s =
      if ltb view_id s.next_view_id
      then panic
      else ok (record s {
        onhold_requests = insert view_id (held view_id s ++ request ∷ []) s.onhold_requests;
      })

  -- Requests for one view, in their order.
  unfoldable pub hold_all : ℕ → List R → FutureRequests R → Result (FutureRequests R)
  hold_all view_id [] s = ok s
  hold_all view_id (r ∷ rs) s = do s' ← on_hold_request view_id r s; hold_all view_id rs s'

  -- The next views; a flag for each says whether there is a place for its requests.
  unfoldable pub pass_views : List Bool → FutureRequests R → Result (FutureRequests R)
  pass_views [] s = ok s
  pass_views (has_place ∷ flags) s = do
    (ready, s') ← on_new_view s.next_view_id has_place s
    pass_views flags s'
