-- ===== src/RoundRobin/Fair.antt =====
-- The picks of a round.
use boki.Base.{
  ℕ, suc, ◌≤◌, List, [], ◌∷◌, ◌++◌, Option, none, some, ◌≡◌, refl, sym, ap, ◌∙◌, subst, le→ltb,
  length, Map, IsSorted, arith,
}
use mathlib.Core.List.{append_assoc}
use boki.RoundRobin.{RoundRobinSet, element_after, pick_next, pick_at, pick_times}

abbrev pub elements : Map (Unit {0}) → List (Option ℕ)
elements [] = []
elements ((x, u) ∷ xs) = some x ∷ elements xs

unfoldable pub first_of : Map (Unit {0}) → Option ℕ
first_of [] = none
first_of ((x, u) ∷ xs) = some x

sorted_le :
    (front rest : Map (Unit {0})) (lo x : ℕ) {u : Unit {0}}
    → IsSorted lo (front ++ (x, u) ∷ rest)
    → lo ≤ x
sorted_le [] rest lo x h = h.0
sorted_le ((z, u) ∷ front) rest lo x h = omega (arith, h.0, sorted_le front rest (suc z) x h.1)

-- What is left of the set when its first elements have been picked.
element_after-front :
    (front rest : Map (Unit {0})) (lo x : ℕ) {u : Unit {0}}
    → IsSorted lo (front ++ (x, u) ∷ rest)
    → element_after x (front ++ (x, u) ∷ rest) ≡ first_of rest
unfolding element_after first_of
element_after-front [] [] lo x h = ground arith
element_after-front [] ((y, u) ∷ rest) lo x h = ground (arith, h.1.0)
element_after-front ((z, u) ∷ front) rest lo x h =
    rw (le→ltb x z (omega (arith, sorted_le front rest (suc z) x h.1)))
      (element_after-front front rest (suc z) x h.1)

at_element :
    (x : ℕ) (s : RoundRobinSet) (front rest : Map (Unit {0})) {u : Unit {0}}
    → s.current ≡ some x
    → s.elems ≡ front ++ (x, u) ∷ rest
    → pick_next s ≡ (some x, record s { current = element_after x s.elems })
unfolding pick_next pick_at
at_element x s [] rest here e = rw e (rw here refl)
at_element x s (y ∷ front) rest here e = rw e (rw here refl)

picks_rest :
    (front rest : Map (Unit {0})) (s : RoundRobinSet)
    → s.elems ≡ front ++ rest
    → IsSorted 0 s.elems
    → s.current ≡ first_of rest
    → pick_times (length rest) s ≡ (elements rest, record s { current = none })
unfolding pick_times first_of
picks_rest front [] s e sorted here = ap (λ c. ([], record s { current = c })) here
picks_rest front ((x, u) ∷ rest) s e sorted here =
    let step = at_element x s front rest here e in
    let after : element_after x s.elems ≡ first_of rest =
      ap (element_after x) e ∙ element_after-front front rest 0 x (subst (IsSorted 0) e sorted) in
    let later =
      picks_rest (front ++ (x, u) ∷ []) rest (record s { current = element_after x s.elems })
        (e ∙ sym (append_assoc front ((x, u) ∷ []) rest)) sorted after in
    ap
      (λ (p : Option ℕ × RoundRobinSet).
        (p.0 ∷ (pick_times (length rest) p.1).0, (pick_times (length rest) p.1).1))
      step
    ∙ ap (λ (p : List (Option ℕ) × RoundRobinSet). (some x ∷ p.0, p.1)) later

at_end :
    (x : ℕ) (s : RoundRobinSet) (xs : Map (Unit {0})) {u : Unit {0}}
    → s.current ≡ none
    → s.elems ≡ (x, u) ∷ xs
    → pick_next s ≡ (some x, record s { current = element_after x s.elems })
unfolding pick_next pick_at
at_end x s xs here e = rw e (rw here refl)

round_from_end :
    (xs : Map (Unit {0})) (s : RoundRobinSet)
    → s.elems ≡ xs
    → IsSorted 0 s.elems
    → s.current ≡ none
    → pick_times (length xs) s ≡ (elements xs, record s { current = none })
unfolding pick_times first_of
round_from_end [] s e sorted here = ap (λ c. ([], record s { current = c })) here
round_from_end ((x, u) ∷ xs) s e sorted here =
    let step : pick_next s ≡ pick_next (record s { current = some x }) =
      at_end x s xs here e ∙ sym (at_element x (record s { current = some x }) [] xs refl e) in
    ap
      (λ (p : Option ℕ × RoundRobinSet).
        (p.0 ∷ (pick_times (length xs) p.1).0, (pick_times (length xs) p.1).1))
      step
    ∙ picks_rest [] ((x, u) ∷ xs) (record s { current = some x }) e sorted refl

-- From wherever the iterator stands, the next picks give the elements from there on, each once and in
-- order, and end at the end of the set; from there a round of picks gives every element of the set
-- once and in order and ends at the end again.
pub round_picks_each_once :
    (front rest : Map (Unit {0})) (s : RoundRobinSet)
    → s.elems ≡ front ++ rest
    → IsSorted 0 s.elems
    → s.current ≡ first_of rest
    → (pick_times (length rest) s ≡ (elements rest, record s { current = none }))
      × (pick_times (length s.elems) (record s { current = none })
          ≡ (elements s.elems, record s { current = none }))
round_picks_each_once front rest s e sorted here = (
  picks_rest front rest s e sorted here,
  round_from_end s.elems (record s { current = none }) refl sorted refl,
)
