-- ===== src/RoundRobin/Tests.antt =====
-- A set of three elements, of which the first has been picked.
use boki.Base.{[], ◌∷◌, none, some, true, ◌≡◌, refl, insert, contains, erase, arith}
use boki.RoundRobin.{
  RoundRobinSet, round_robin_set, add_element, remove_element, pick_times, element_after,
}
use boki.RoundRobin.Fair.{first_of, round_picks_each_once}

abbrev three : RoundRobinSet
three = record { elems = (2, tt) ∷ (4, tt) ∷ (9, tt) ∷ []; current = some 4 }

round_picks_each_once_example :
    (pick_times 2 three ≡ (some 4 ∷ some 9 ∷ [], record three { current = none }))
    × (pick_times 3 (record three { current = none })
        ≡ (some 2 ∷ some 4 ∷ some 9 ∷ [], record three { current = none }))
unfolding first_of
round_picks_each_once_example =
    round_picks_each_once ((2, tt) ∷ []) ((4, tt) ∷ (9, tt) ∷ []) three refl
      (omega arith, (omega arith, (omega arith, tt))) refl

-- The iterator moves on when its element goes.
removes :
    remove_element 4 three ≡ (true, record { elems = (2, tt) ∷ (9, tt) ∷ []; current = some 9 })
unfolding remove_element contains erase element_after
removes = refl

adds : add_element 4 round_robin_set ≡ (true, record { elems = (4, tt) ∷ []; current = none })
unfolding add_element contains insert
adds = refl
