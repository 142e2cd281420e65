-- ===== src/Index/Tests.antt =====
-- An index of log space 1 with entries 2, 5 and 9, and queries to it.
use boki.Base.{
  ℕ, ◌+◌, List, [], ◌∷◌, none, some, true, ◌≡◌, refl, length, lookup, insert, ok, arith,
}
use boki.Bits.{join_two32, get_view_id, high_half32, high_half64}
use boki.Producer.Tests.{base}
use boki.Index.{
  PerSpaceIndex, per_space_index, add, add_tags, IndexQuery, read_next_b, find_next, find_prev,
  seqnums_of, find_next_in, find_prev_in, at_lower, located,
}
use boki.Index.Queries.{
  Index, no_index, nothing_found, on_finalized, process_queries, process_query,
  process_blocking_query, index_find_next, queries_of,
}
use boki.Index.Search.{IsGrowing, IsNext, IsPrev, find_next_in-IsNext, find_prev_in-IsPrev}
use boki.Index.Answers.{taken_up, finalized_takes_up_all}

abbrev entries : List ℕ
entries = 2 ∷ 5 ∷ 9 ∷ []

entries-IsGrowing : IsGrowing 0 entries
entries-IsGrowing =
    (omega arith, omega arith, (omega arith, omega arith, (omega arith, omega arith, tt)))

find_next_in-IsNext_example : IsNext 1 0x100000003 entries (find_next_in 1 entries 0x100000003)
find_next_in-IsNext_example =
    find_next_in-IsNext 1 0x100000003 0 entries (omega arith) entries-IsGrowing

find_prev_in-IsPrev_example : IsPrev 1 0x100000008 entries (find_prev_in 1 entries 0x100000008)
find_prev_in-IsPrev_example =
    find_prev_in-IsPrev 1 0x100000008 0 entries (omega arith) entries-IsGrowing

-- Entry 2 of engine 3 has tag 7.
abbrev tagged : PerSpaceIndex
tagged = add 2 3 (7 ∷ []) (per_space_index 1 0)

by_tag : find_next tagged 0x100000000 7 ≡ ok (some (0x100000002, 3))
unfolding find_next find_next_in seqnums_of add add_tags lookup insert at_lower located join_two32
by_tag = refl

other_tag : find_prev tagged 0x100000008 8 ≡ ok none
unfolding find_prev seqnums_of add add_tags lookup insert
other_tag = refl

-- A blocking read of view 1 that waits for position 4.
abbrev query : IndexQuery
query = record {
  direction = read_next_b;
  origin_node_id = 3;
  hop_times = 0;
  initial = true;
  client_data = 0;
  user_logspace = 0;
  user_tag = 0;
  query_seqnum = 0x1000100000000;
  metalog_progress = 0x1000100000004;
  prev_found_result = nothing_found;
}

abbrev waiting : Index
waiting = record no_index { pending_queries = (4, query) ∷ [] }

abbrev blocked : Index
blocked = record no_index { blocking_reads = (50, query) ∷ [] }

blocks : on_finalized 50 base 4 waiting ≡ ok blocked
unfolding on_finalized process_queries process_query process_blocking_query index_find_next
    queries_of get_view_id high_half32 high_half64 lookup
blocks = refl

finalized_takes_up_all_example :
    (blocked.pending_queries ≡ [])
    × (taken_up blocked ≡ length waiting.pending_queries + taken_up waiting)
finalized_takes_up_all_example = finalized_takes_up_all 50 base 4 waiting blocks
