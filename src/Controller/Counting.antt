-- ===== src/Controller/Counting.antt =====
-- Counting the numbers of a list that pass a test.
use boki.Base.{
  ℕ, suc, ◌+◌, ◌≤◌, ◌<◌, List, [], ◌∷◌, Bool, true, false, ◌≡◌, refl, if◌then◌else◌, elem, length,
  arith,
}

-- How many of the numbers pass.
abbrev pub count : (ℕ → Bool) → List ℕ → ℕ
count f [] = 0
count f (x ∷ xs) = (if f x then 1 else 0) + count f xs

-- Two tests that many numbers pass share one of them.
pub count-overlap :
    (f g : ℕ → Bool) (xs : List ℕ)
    → length xs < count f xs + count g xs
    → (x : ℕ) × (elem x xs ≡ true) × (f x ≡ true) × (g x ≡ true)
count-overlap f g [] h = absurd (omega arith)
count-overlap f g (x ∷ xs) h = go (f x) (g x) refl refl (count-overlap f g xs) h
  where
    later :
        (y : ℕ) × (elem y xs ≡ true) × (f y ≡ true) × (g y ≡ true)
        → (y : ℕ) × (elem y (x ∷ xs) ≡ true) × (f y ≡ true) × (g y ≡ true)
    later (y, e, p, q) = (y, ground (arith, e), p, q)

    go :
        (a b : Bool)
        → f x ≡ a
        → g x ≡ b
        → (length xs < count f xs + count g xs
            → (y : ℕ) × (elem y xs ≡ true) × (f y ≡ true) × (g y ≡ true))
        → suc (length xs)
          < ((if a then 1 else 0) + count f xs) + ((if b then 1 else 0) + count g xs)
        → (y : ℕ) × (elem y (x ∷ xs) ≡ true) × (f y ≡ true) × (g y ≡ true)
    go true true p q ih h = (x, ground arith, p, q)
    go true false p q ih h = later (ih (omega arith))
    go false true p q ih h = later (ih (omega arith))
    go false false p q ih h = later (ih (omega arith))

pub count_mono :
    (f g : ℕ → Bool) (xs : List ℕ) → ((x : ℕ) → f x ≡ true → g x ≡ true) → count f xs ≤ count g xs
count_mono f g [] h = omega arith
count_mono f g (x ∷ xs) h = ground (arith, h x, count_mono f g xs h)

pub count-gains :
    (f g : ℕ → Bool) (y : ℕ) (xs : List ℕ)
    → ((x : ℕ) → f x ≡ true → g x ≡ true)
    → elem y xs ≡ true
    → f y ≡ false
    → g y ≡ true
    → suc (count f xs) ≤ count g xs
count-gains f g y [] h e p q = cc
count-gains f g y (x ∷ xs) h e p q =
    ground (arith, h x, count_mono f g xs h, count-gains f g y xs h)
