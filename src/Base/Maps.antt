-- ===== src/Base/Maps.antt =====
-- A map with numbers for keys, as an association list kept in the order of its keys: the order in
-- which `std::map` and `std::set` are walked. A hash map is written by it too, where its order
-- serves as one of the possible ones.
use Prim.Native.Nat.{ℕ, suc, ◌≤◌, ◌<◌}
use mathlib.Core.Path.{◌≡◌, refl}
use mathlib.Core.Bool.{Bool, true, false}
use mathlib.Core.Option.{Option, none, some}
use mathlib.Core.List.{List, [], ◌∷◌}
use native.Mathlib.Omega.{arith}
use boki.Base.Tests.{ltb, ◌==◌, if◌then◌else◌}

abbrev pub Map {ℓ} : Type ℓ → Type ℓ
Map V = List (ℕ × V)

module _ {ℓ} {V : Type ℓ} where
  unfoldable pub lookup : ℕ → Map V → Option V
  lookup k [] = none
  lookup k ((j, v) ∷ m) = if j == k then some v else lookup k m

  unfoldable pub contains : ℕ → Map V → Bool
  contains k [] = false
  contains k ((j, v) ∷ m) = if j == k then true else contains k m

  -- `m[k] = v`
  unfoldable pub insert : ℕ → V → Map V → Map V
  insert k v [] = (k, v) ∷ []
  insert k v ((j, w) ∷ m) =
      if ltb k j then (k, v) ∷ (j, w) ∷ m else if j == k then (k, v) ∷ m else (j, w) ∷ insert k v m

  unfoldable pub erase : ℕ → Map V → Map V
  erase k [] = []
  erase k ((j, w) ∷ m) = let rest = erase k m in if j == k then rest else (j, w) ∷ rest

  -- Into a `std::multimap`: behind the entries of the same key.
  unfoldable pub insert_multi : ℕ → V → Map V → Map V
  insert_multi k v [] = (k, v) ∷ []
  insert_multi k v ((j, w) ∷ m) =
      if ltb k j then (k, v) ∷ (j, w) ∷ m else (j, w) ∷ insert_multi k v m

  pub lookup-insert :
      (key at : ℕ) (new : V) (m : Map V)
      → lookup at (insert key new m) ≡ (if key == at then some new else lookup at m)
  unfolding lookup insert
  lookup-insert key at new [] = refl
  lookup-insert key at new ((j, old) ∷ rest) = ground (arith, lookup-insert key at new rest)

  pub lookup-erase :
      (k j : ℕ) (m : Map V) → lookup j (erase k m) ≡ (if k == j then none else lookup j m)
  unfolding lookup erase
  lookup-erase k j [] = ground arith
  lookup-erase k j ((i, w) ∷ m) = ground (arith, lookup-erase k j m)

  pub contains-lookup :
      (k : ℕ) (m : Map V) → contains k m ≡ (elim (lookup k m) [ none ↦ false | some _ ↦ true ])
  unfolding lookup contains
  contains-lookup k [] = refl
  contains-lookup k ((i, w) ∷ m) = ground (arith, contains-lookup k m)

  -- Of each entry.
  abbrev pub AllKeys {κ} : (ℕ → V → Type κ) → Map V → Type κ
  AllKeys P [] = Unit
  AllKeys P ((k, v) ∷ m) = P k v × AllKeys P m

  pub AllKeys-insert {κ} :
      (P : ℕ → V → Type κ) (k : ℕ) (v : V) (m : Map V)
      → P k v
      → AllKeys P m
      → AllKeys P (insert k v m)
  unfolding insert
  AllKeys-insert P k v [] p h = (p, tt)
  AllKeys-insert P k v ((j, w) ∷ m) p h =
      let rest = AllKeys-insert P k v m p h.1 in go (ltb k j) (j == k) rest
    where
      go :
          (a b : Bool)
          → AllKeys P (insert k v m)
          → AllKeys P
              (if a then (k, v) ∷ (j, w) ∷ m else if b then (k, v) ∷ m else (j, w) ∷ insert k v m)
      go true b rest = (p, h)
      go false true rest = (p, h.1)
      go false false rest = (h.0, rest)

  pub AllKeys-mono {κ μ} :
      (P : ℕ → V → Type κ) (Q : ℕ → V → Type μ) (m : Map V)
      → ((k : ℕ) (v : V) → P k v → Q k v)
      → AllKeys P m
      → AllKeys Q m
  AllKeys-mono P Q [] f h = tt
  AllKeys-mono P Q ((k, v) ∷ m) f h = (f k v h.0, AllKeys-mono P Q m f h.1)

module _ {ℓ} {V : Type ℓ} where
  pub contains-insert :
      (k j : ℕ) (v : V) (m : Map V)
      → contains j (insert k v m) ≡ (if k == j then true else contains j m)
  contains-insert k j v m =
      rw (contains-lookup j (insert k v m), contains-lookup j m, lookup-insert k j v m)
        (ground arith)

  pub contains-erase :
      (k j : ℕ) (m : Map V) → contains j (erase k m) ≡ (if k == j then false else contains j m)
  contains-erase k j m =
      rw (contains-lookup j (erase k m), contains-lookup j m, lookup-erase k j m) (ground arith)

  -- The keys grow strictly, from `lo` on.
  abbrev pub IsSorted : ℕ → Map V → Type 0
  IsSorted lo [] = Unit
  IsSorted lo ((k, v) ∷ m) = (lo ≤ k) × IsSorted (suc k) m

  pub insert-IsSorted :
      (lo k : ℕ) (v : V) (m : Map V) → lo ≤ k → IsSorted lo m → IsSorted lo (insert k v m)
  unfolding insert
  insert-IsSorted lo k v [] h s = (h, tt)
  insert-IsSorted lo k v ((j, w) ∷ m) h s = ground (arith, insert-IsSorted (suc j) k v m)

  pub IsSorted-mono : (lo hi : ℕ) (m : Map V) → lo ≤ hi → IsSorted hi m → IsSorted lo m
  IsSorted-mono lo hi [] h s = tt
  IsSorted-mono lo hi ((k, v) ∷ m) h s = (omega arith, s.1)

  pub contains-IsSorted : (lo k : ℕ) (m : Map V) → k < lo → IsSorted lo m → contains k m ≡ false
  unfolding contains
  contains-IsSorted lo k [] h s = refl
  contains-IsSorted lo k ((j, w) ∷ m) h s = ground (arith, contains-IsSorted (suc j) k m)

pub ruleset map_laws = (lookup-insert, lookup-erase, contains-insert, contains-erase)
