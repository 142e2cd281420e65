-- ===== src/View/Plans.antt =====
-- What a plan that was read says: the two maps are each other's converse.
use boki.Base.{
  ℕ, zero, suc, ◌+◌, ◌*◌, List, [], ◌∷◌, ◌++◌, get_elem?, elem, true, ◌≡◌, refl, lookup,
  lookup-insert, ok, expect, subst, >>=-eq-ok, ok-injective, arith, ◌==◌, if◌then◌else◌,
}
use boki.Bits.{u16}
use boki.View.Plan.{Links, no_links, links_of, push_link, link, read_row, read_plan}

elem-append : (k x : ℕ) (xs : List ℕ) → elem k (xs ++ x ∷ []) ≡ (if x == k then true else elem k xs)
elem-append k x [] = refl
elem-append k x (y ∷ xs) = ground (arith, elem-append k x xs)

links_of-push_link :
    (a b k : ℕ) (m : List (ℕ × List ℕ))
    → links_of k (push_link a b m) ≡ (if a == k then links_of a m ++ b ∷ [] else links_of k m)
unfolding links_of push_link
links_of-push_link a b k m = ground (arith, lookup-insert a k (links_of a m ++ b ∷ []) m)

-- Each link stands in both maps.
abbrev pub IsConverse : Links → Type 0
IsConverse l = (a b : ℕ) → elem b (links_of a l.forward) ≡ elem a (links_of b l.backward)

no_links-IsConverse : IsConverse no_links
unfolding links_of lookup
no_links-IsConverse a b = refl

link-IsConverse : (x y : ℕ) (l : Links) → IsConverse l → IsConverse (link x y l)
unfolding link
link-IsConverse x y l c a b = ground (
  arith,
  links_of-push_link x y a l.forward,
  links_of-push_link y x b l.backward,
  elem-append b y (links_of x l.forward),
  elem-append a x (links_of y l.backward),
  c a b,
  c x b,
  c a y,
)

read_row-IsConverse :
    (plan : List ℕ) (node i n : ℕ) (l : Links) {l' : Links}
    → IsConverse l
    → read_row plan node i n l ≡ ok l'
    → IsConverse l'
unfolding read_row
read_row-IsConverse plan node i zero l c e = subst IsConverse (ok-injective e) c
read_row-IsConverse plan node i (suc n) l c e =
    let (other, _, rest) = >>=-eq-ok (expect (get_elem? plan i)) _ e in
    read_row-IsConverse plan node (i + 1) n (link node (u16 other) l)
      (link-IsConverse node (u16 other) l c) rest

-- Reading a plan keeps the two maps converse to each other.
pub read_plan-IsConverse :
    (plan : List ℕ) (replicas i : ℕ) (nodes : List ℕ) (l : Links) {l' : Links}
    → IsConverse l
    → read_plan plan replicas i nodes l ≡ ok l'
    → IsConverse l'
unfolding read_plan
read_plan-IsConverse plan replicas i [] l c e = subst IsConverse (ok-injective e) c
read_plan-IsConverse plan replicas i (node ∷ nodes) l c e =
    let (l₁, row, rest) = >>=-eq-ok (read_row plan node (i * replicas) replicas l) _ e in
    read_plan-IsConverse plan replicas (i + 1) nodes l₁
      (read_row-IsConverse plan node (i * replicas) replicas l c row) rest

pub read_plan_agrees :
    (plan : List ℕ) (replicas : ℕ) (nodes : List ℕ) {l : Links}
    → read_plan plan replicas 0 nodes no_links ≡ ok l
    → IsConverse l
read_plan_agrees plan replicas nodes e =
    read_plan-IsConverse plan replicas 0 nodes no_links no_links-IsConverse e
