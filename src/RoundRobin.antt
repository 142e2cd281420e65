-- ===== src/RoundRobin.antt =====
-- src/utils/round_robin_set.h: a set that is gone through in turn, for elements that are numbers. The
-- set is the list of its elements in order; the iterator is the element it stands at, or none at the
-- end, where it stays when elements come.
pub mod Fair
mod Tests
use boki.Base.{
  ℕ, zero, suc, ◌+◌, List, [], ◌∷◌, Option, none, some, Bool, true, false, ltb, ◌==◌, if◌then◌else◌,
  elem, Map, contains, insert, erase,
}

pub record RoundRobinSet : Type 0 where
  pub elems : Map (Unit {0})
  pub current : Option ℕ

-- The constructor: the beginning of an empty set is its end.
abbrev pub round_robin_set : RoundRobinSet
round_robin_set = record { elems = []; current = none }

-- The first element past `x`, or the end.
unfoldable pub element_after : ℕ → Map (Unit {0}) → Option ℕ
element_after x [] = none
element_after x ((y, u) ∷ ys) = if ltb x y then some y else element_after x ys

-- `Add`
unfoldable pub add_element : ℕ → RoundRobinSet → Bool × RoundRobinSet
add_element x s =
    if contains x s.elems then (false, s) else (true, record s { elems = insert x tt s.elems })

is_at : ℕ → Option ℕ → Bool
is_at x none = false
is_at x (some y) = x == y

-- `Remove`; an iterator at the element moves to the next one.
unfoldable pub remove_element : ℕ → RoundRobinSet → Bool × RoundRobinSet
unfolding is_at
remove_element x s =
    if contains x s.elems
    then (
      true,
      record s {
        elems = erase x s.elems;
        current = if is_at x s.current then element_after x s.elems else s.current;
      },
    )
    else (false, s)

unfoldable pub pick_at : Option ℕ → Map (Unit {0}) → RoundRobinSet → Option ℕ × RoundRobinSet
pick_at (some x) ys s = (some x, record s { current = element_after x s.elems })
pick_at none [] s = (none, s)
pick_at none ((x, u) ∷ ys) s = (some x, record s { current = element_after x s.elems })

-- `PickNext`
unfoldable pub pick_next : RoundRobinSet → Option ℕ × RoundRobinSet
pick_next s = elim s.elems [ [] ↦ (none, s) | _ ∷ _ ↦ pick_at s.current s.elems s ]

-- `n` picks.
unfoldable pub pick_times : ℕ → RoundRobinSet → List (Option ℕ) × RoundRobinSet
pick_times zero s = ([], s)
pick_times (suc n) s = let (x, s') = pick_next s in let (xs, s'') = pick_times n s' in (x ∷ xs, s'')
