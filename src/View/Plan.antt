-- ===== src/View/Plan.antt =====
-- src/log/view.cpp: how the constructor reads a plan, a table with a row of node ids for each node.
use boki.Base.{
  ℕ, zero, suc, ◌+◌, ◌*◌, List, [], ◌∷◌, ◌++◌, none, some, get_elem?, Map, lookup, insert, Result,
  ok, ◌>>=◌, expect,
}
use boki.Bits.{u16}

-- The two maps that a plan fills: from a row's node to the nodes of the row, and back.
pub record Links : Type 0 where
  pub forward : Map (List ℕ)
  pub backward : Map (List ℕ)

abbrev pub no_links : Links
no_links = record { forward = []; backward = [] }

-- `m[k]`, which makes an empty vector where there is none.
unfoldable pub links_of : ℕ → Map (List ℕ) → List ℕ
links_of k m = elim (lookup k m) [ none ↦ [] | some xs ↦ xs ]

-- `m[k].push_back(v)`
unfoldable pub push_link : ℕ → ℕ → Map (List ℕ) → Map (List ℕ)
push_link k v m = insert k (links_of k m ++ v ∷ []) m

unfoldable pub link : ℕ → ℕ → Links → Links
unfolding push_link
link a b l = record { forward = push_link a b l.forward; backward = push_link b a l.backward }

-- The `n` entries of a row, from index `i` of the plan on.
unfoldable pub read_row : List ℕ → ℕ → ℕ → ℕ → Links → Result Links
read_row plan node i zero l = ok l
read_row plan node i (suc n) l = do
  other ← expect (get_elem? plan i)
  read_row plan node (i + 1) n (link node (u16 other) l)

-- The rows of the nodes, `replicas` entries each, from row `i` on.
unfoldable pub read_plan : List ℕ → ℕ → ℕ → List ℕ → Links → Result Links
read_plan plan replicas i [] l = ok l
read_plan plan replicas i (node ∷ nodes) l = do
  l' ← read_row plan node (i * replicas) replicas l
  read_plan plan replicas (i + 1) nodes l'
