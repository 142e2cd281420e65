-- ===== src/Sequencer/Safely.antt =====
-- A result after which the frozen and finalized log spaces are as before.
use boki.Base.{
  ℕ, List, some, Bool, true, false, ◌≡◌, ◌↔◌, refl, sym, ap, ◌∙◌, subst, ◌==◌, ==_iff,
  if◌then◌else◌, lookup, lookup-insert, Result, ok, panic, ◌>>=◌, expect-eq-ok, >>=-eq-ok,
  ok-injective, some-injective,
}
use boki.LogSpace.{LogSpaceBase}
use boki.Primary.{MetaLogPrimary}
use boki.Collection.{LogSpaceCollection, get_log_space_checked}
use boki.Sequencer.{Output, Sequencer, put, is_inactive}

-- The inactive log spaces of a collection are those of another one.
abbrev pub Keeps :
    {T : Type 0} → (T → LogSpaceBase) → LogSpaceCollection T → LogSpaceCollection T → Type 0
Keeps {T} base c c' =
    (id : ℕ) (x : T)
    → lookup id c.log_spaces ≡ some x
    → is_inactive (base x) ≡ true
    → lookup id c'.log_spaces ≡ some x

abbrev pub base_of_primary : MetaLogPrimary → LogSpaceBase
base_of_primary p = p.base

abbrev pub base_itself : LogSpaceBase → LogSpaceBase
base_itself b = b

abbrev pub KeepsInactive : Sequencer → Sequencer → Type 0
KeepsInactive s s' =
    Keeps base_of_primary s.primary_collection s'.primary_collection
    × Keeps base_itself s.backup_collection s'.backup_collection

put-Keeps :
    {T : Type 0} (base : T → LogSpaceBase) (id : ℕ) (x y : T) (c : LogSpaceCollection T)
    → get_log_space_checked id c ≡ ok x
    → is_inactive (base x) ≡ false
    → Keeps base c (put id y c)
unfolding get_log_space_checked
put-Keeps {T} base id x y c found active i z at inactive =
    lookup-insert id i y c.log_spaces ∙ go (id == i) (==_iff id i)
  where
    there : lookup id c.log_spaces ≡ some x
    there = expect-eq-ok (lookup id c.log_spaces) found

    go : (b : Bool) → (b ≡ true ↔ id ≡ i) → (if b then some y else lookup i c.log_spaces) ≡ some z
    go true same =
        let e : x ≡ z =
          some-injective (sym there ∙ ap (λ k. lookup k c.log_spaces) (same.0 refl) ∙ at) in
        absurd (cc (sym active ∙ ap (λ w. is_inactive (base w)) e ∙ inactive))
    go false same = at

still : (s : Sequencer) → KeepsInactive s s
still s = ((λ i x at h. at), λ i x at h. at)

pub KeepsInactive-trans :
    (a b c : Sequencer) → KeepsInactive a b → KeepsInactive b c → KeepsInactive a c
KeepsInactive-trans a b c h g =
    ((λ i x at e. g.0 i x (h.0 i x at e) e), λ i x at e. g.1 i x (h.1 i x at e) e)

-- A result that stands still if there is one.
abbrev pub Safely : Sequencer → Result (Sequencer × List Output) → Type 0
Safely s r = (s' : Sequencer) (out : List Output) → r ≡ ok (s', out) → KeepsInactive s s'

pub returns-Safely : (s : Sequencer) (out : List Output) → Safely s (ok (s, out))
returns-Safely s out s' out' e =
    subst (KeepsInactive s) (ap (λ (x : Sequencer × List Output). x.0) (ok-injective e)) (still s)

pub if-Safely :
    (s : Sequencer) (b : Bool) (m n : Result (Sequencer × List Output))
    → (b ≡ true → Safely s m)
    → (b ≡ false → Safely s n)
    → Safely s (if b then m else n)
if-Safely s true m n h g = h refl
if-Safely s false m n h g = g refl

pub bind-Safely :
    {A : Type 0} (s : Sequencer) (m : Result A) (f : A → Result (Sequencer × List Output))
    → ((a : A) → m ≡ ok a → Safely s (f a))
    → Safely s (m >>= f)
bind-Safely s m f h s' out e = let (a, e₁, e₂) = >>=-eq-ok m f e in h a e₁ s' out e₂

pub panic-Safely : (s : Sequencer) → Safely s panic
panic-Safely s s' out e = cc

pub primary-Safely :
    (s : Sequencer) (id : ℕ) (p q : MetaLogPrimary) (out : List Output)
    → get_log_space_checked id s.primary_collection ≡ ok p
    → is_inactive p.base ≡ false
    → Safely s (ok (record s { primary_collection = put id q s.primary_collection }, out))
primary-Safely s id p q out found active s' out' e =
    subst (KeepsInactive s) (ap (λ (x : Sequencer × List Output). x.0) (ok-injective e))
      (put-Keeps base_of_primary id p q s.primary_collection found active, λ i x at h. at)

pub backup-Safely :
    (s : Sequencer) (id : ℕ) (p q : LogSpaceBase) (out : List Output)
    → get_log_space_checked id s.backup_collection ≡ ok p
    → is_inactive p ≡ false
    → Safely s (ok (record s { backup_collection = put id q s.backup_collection }, out))
backup-Safely s id p q out found active s' out' e =
    subst (KeepsInactive s) (ap (λ (x : Sequencer × List Output). x.0) (ok-injective e))
      ((λ i x at h. at), put-Keeps base_itself id p q s.backup_collection found active)
