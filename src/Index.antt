-- ===== src/Index.antt =====
-- src/log/index.h and src/log/index.cpp: the records of a query, and `PerSpaceIndex`, which finds the
-- entries of one user log space by sequence number and tag. A binary search of the standard library
-- is the scan that its documentation gives for a list in order.
pub mod Search
pub mod Queries
pub mod Answers
mod Tests
use boki.Base.{
  ℕ, zero, suc, ◌+◌, ◌*◌, ◌-◌, ◌^◌, List, [], ◌∷◌, ◌++◌, Option, none, some, Bool, true, false, ltb,
  ◌==◌, if◌then◌else◌, last?, Map, lookup, insert, Result, ok, panic, ◌>>=◌, expect,
}
use boki.Bits.{join_two32}

-- `kEmptyLogTag` and `kMaxLogSeqNum` of src/log/common.h.
abbrev pub empty_log_tag : ℕ
empty_log_tag = 0

abbrev pub max_log_seqnum : ℕ
max_log_seqnum = 0xffff000000000000

pub record IndexFoundResult : Type 0 where
  pub view_id : ℕ
  pub engine_id : ℕ
  pub seqnum : ℕ

pub data ReadDirection : Type 0 where
  read_next read_prev read_next_b : ReadDirection

pub record IndexQuery : Type 0 where
  pub direction : ReadDirection
  pub origin_node_id : ℕ
  pub hop_times : ℕ
  pub initial : Bool
  pub client_data : ℕ
  pub user_logspace : ℕ
  pub user_tag : ℕ
  pub query_seqnum : ℕ
  pub metalog_progress : ℕ
  pub prev_found_result : IndexFoundResult

pub data QueryState : Type 0 where
  found empty continued : QueryState

pub record IndexQueryResult : Type 0 where
  pub state : QueryState
  pub metalog_progress : ℕ
  pub next_view_id : ℕ
  pub original_query : IndexQuery
  pub found_result : IndexFoundResult

pub record PerSpaceIndex : Type 0 where
  pub logspace_id : ℕ
  pub user_logspace : ℕ
  pub engine_ids : Map ℕ
  pub seqnums : List ℕ
  pub seqnums_by_tag : Map (List ℕ)

-- The constructor.
abbrev pub per_space_index : ℕ → ℕ → PerSpaceIndex
per_space_index logspace_id user_logspace = record {
  logspace_id = logspace_id;
  user_logspace = user_logspace;
  engine_ids = [];
  seqnums = [];
  seqnums_by_tag = [];
}

unfoldable pub add_tags : ℕ → List ℕ → Map (List ℕ) → Map (List ℕ)
add_tags seqnum [] m = m
add_tags seqnum (t ∷ ts) m =
    let old : List ℕ = elim (lookup t m) [ none ↦ [] | some s ↦ s ] in
    add_tags seqnum ts (insert t (old ++ seqnum ∷ []) m)

-- `Add`
unfoldable pub add : ℕ → ℕ → List ℕ → PerSpaceIndex → PerSpaceIndex
add seqnum_lowhalf engine_id user_tags ix = record ix {
  engine_ids = insert seqnum_lowhalf engine_id ix.engine_ids;
  seqnums = ix.seqnums ++ seqnum_lowhalf ∷ [];
  seqnums_by_tag = add_tags seqnum_lowhalf user_tags ix.seqnums_by_tag;
}

-- The last before `absl::c_upper_bound`; `none` when the bound is the beginning.
unfoldable pub before_upper : ℕ → ℕ → List ℕ → Option ℕ
before_upper logspace_id query [] = none
before_upper logspace_id query (x ∷ xs) =
    let rest = before_upper logspace_id query xs in
    if ltb query (join_two32 logspace_id x)
    then none
    else (elim rest [ none ↦ some x | some y ↦ some y ])

-- The element at `absl::c_lower_bound`; `none` when the bound is the end.
unfoldable pub at_lower : ℕ → ℕ → List ℕ → Option ℕ
at_lower logspace_id query [] = none
at_lower logspace_id query (x ∷ xs) =
    let rest = at_lower logspace_id query xs in
    if ltb (join_two32 logspace_id x) query then rest else some x

-- The private `FindPrev` on one list of sequence numbers.
unfoldable pub find_prev_in : ℕ → List ℕ → ℕ → Option ℕ
find_prev_in logspace_id [] query = none
find_prev_in logspace_id (x ∷ xs) query =
    if ltb query (join_two32 logspace_id x)
    then none
    else if query == max_log_seqnum
    then last? (x ∷ xs)
    else before_upper logspace_id query (x ∷ xs)

-- The private `FindNext`.
unfoldable pub find_next_in : ℕ → List ℕ → ℕ → Option ℕ
find_next_in logspace_id seqnums query = elim (last? seqnums) [
  | none ↦ none
  | some back ↦
      if ltb (join_two32 logspace_id back) query then none else at_lower logspace_id query seqnums
]

-- The list to search: all, or those of the tag.
unfoldable pub seqnums_of : ℕ → PerSpaceIndex → Option (List ℕ)
seqnums_of user_tag ix =
    if user_tag == empty_log_tag then some ix.seqnums else lookup user_tag ix.seqnums_by_tag

-- The sequence number and the engine of what was found.
unfoldable pub located : PerSpaceIndex → Option ℕ → Result (Option (ℕ × ℕ))
located ix none = ok none
located ix (some low) = do
  engine_id ← expect (lookup low ix.engine_ids)
  ok (some (join_two32 ix.logspace_id low, engine_id))

-- `FindPrev`
unfoldable pub find_prev : PerSpaceIndex → ℕ → ℕ → Result (Option (ℕ × ℕ))
find_prev ix query_seqnum user_tag = elim (seqnums_of user_tag ix) [
  | none ↦ ok none
  | some s ↦ located ix (find_prev_in ix.logspace_id s query_seqnum)
]

-- `FindNext`
unfoldable pub find_next : PerSpaceIndex → ℕ → ℕ → Result (Option (ℕ × ℕ))
find_next ix query_seqnum user_tag = elim (seqnums_of user_tag ix) [
  | none ↦ ok none
  | some s ↦ located ix (find_next_in ix.logspace_id s query_seqnum)
]
