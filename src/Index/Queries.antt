-- ===== src/Index/Queries.antt =====
-- The class `Index`: the cuts and the index data that it waits for, and the queries that it answers.
-- The microseconds of the monotonic clock are the argument `now`, one reading for each call.
-- Where a search finds nothing, the code leaves two variables unset and reads them nowhere: an option.
use boki.Base.{
  ℕ, zero, suc, ◌+◌, ◌-◌, ◌^◌, List, [], ◌∷◌, ◌++◌, Option, none, some, Bool, true, false, ltb, leb,
  ◌==◌, if◌then◌else◌, length, drop, Map, lookup, contains, insert, insert_multi, Result, ok, panic,
  ◌>>=◌,
}
use boki.Bits.{u16, u32, join_two32, low_half64, get_view_id}
use boki.Proto.{MetaLogProto, new_logs, IndexDataProto}
use boki.View.{View}
use boki.LogSpace.{LogSpaceBase, Hooks, full_mode, normal, log_space_base, identifier, is_finalized}
use boki.Producer.{invalid_log_seqnum}
use boki.Index.{
  IndexFoundResult, ReadDirection, read_next, read_prev, read_next_b, IndexQuery, found, empty,
  continued, IndexQueryResult, PerSpaceIndex, per_space_index, add, find_prev, find_next,
}

pub record IndexData : Type 0 where
  pub engine_id : ℕ
  pub user_logspace : ℕ
  pub user_tags : List ℕ

pub record Index : Type 0 where
  pub index : Map PerSpaceIndex
  pub pending_queries : Map IndexQuery
  pub blocking_reads : List (ℕ × IndexQuery)
  pub pending_query_results : List IndexQueryResult
  pub cuts : List (ℕ × ℕ)
  pub indexed_metalog_position : ℕ
  pub received_data : Map IndexData
  pub data_received_seqnum_position : ℕ
  pub indexed_seqnum_position : ℕ

abbrev pub no_index : Index
no_index = record {
  index = [];
  pending_queries = [];
  blocking_reads = [];
  pending_query_results = [];
  cuts = [];
  indexed_metalog_position = 0;
  received_data = [];
  data_received_seqnum_position = 0;
  indexed_seqnum_position = 0;
}

-- The constructor.
unfoldable pub index_of_view : View → ℕ → Result (LogSpaceBase × Index)
index_of_view view sequencer_id = do
  b ← log_space_base full_mode view sequencer_id
  ok (record b { state = normal }, no_index)

unfoldable pub progress_for : LogSpaceBase → IndexQuery → Index → ℕ
progress_for b q ix =
    if q.initial then join_two32 (identifier b) ix.indexed_metalog_position else q.metalog_progress

abbrev pub nothing_found : IndexFoundResult
nothing_found = record { view_id = 0; engine_id = 0; seqnum = invalid_log_seqnum }

-- `BuildFoundResult`
unfoldable pub build_found_result :
    LogSpaceBase → IndexQuery → IndexFoundResult → Index → IndexQueryResult
build_found_result b q r ix = record {
  state = found;
  metalog_progress = progress_for b q ix;
  next_view_id = 0;
  original_query = q;
  found_result = r;
}

-- `BuildNotFoundResult`
unfoldable pub build_not_found_result : LogSpaceBase → IndexQuery → Index → IndexQueryResult
build_not_found_result b q ix = record {
  state = empty;
  metalog_progress = progress_for b q ix;
  next_view_id = 0;
  original_query = q;
  found_result = nothing_found;
}

-- Is this not the invalid sequence number?
unfoldable pub has_result : IndexFoundResult → Bool
has_result r = if r.seqnum == invalid_log_seqnum then false else true

-- The direction of the next query: a blocking read goes on as an ordinary one.
unfoldable pub next_direction : ReadDirection → ReadDirection
next_direction read_next = read_next
next_direction read_prev = read_prev
next_direction read_next_b = read_next

abbrev pub found_in : LogSpaceBase → ℕ × ℕ → IndexFoundResult
found_in b at = record { view_id = b.view.id; engine_id = at.1; seqnum = at.0 }

-- `BuildContinueResult`. The view before view 0 wraps around.
unfoldable pub build_continue_result :
    LogSpaceBase → IndexQuery → Option (ℕ × ℕ) → Index → IndexQueryResult
build_continue_result b q at ix = record {
  state = continued;
  metalog_progress = progress_for b q ix;
  next_view_id = u16 (b.view.id + 2 ^ 16 - 1);
  original_query = record q { direction = next_direction q.direction };
  found_result = elim at [
    | some a ↦ found_in b a
    | none ↦ if q.initial then nothing_found else q.prev_found_result
  ];
}

abbrev pub push_result : IndexQueryResult → Index → Index
push_result r ix = record ix { pending_query_results = ix.pending_query_results ++ r ∷ [] }

-- `IndexFindNext` and `IndexFindPrev`
unfoldable pub index_find_next : IndexQuery → Index → Result (Option (ℕ × ℕ))
index_find_next q ix = elim (lookup q.user_logspace ix.index) [
  | none ↦ ok none
  | some s ↦ find_next s q.query_seqnum q.user_tag
]

unfoldable pub index_find_prev : IndexQuery → Index → Result (Option (ℕ × ℕ))
index_find_prev q ix = elim (lookup q.user_logspace ix.index) [
  | none ↦ ok none
  | some s ↦ find_prev s q.query_seqnum q.user_tag
]

-- The answer in the view of the query.
unfoldable pub final_answer : LogSpaceBase → IndexQuery → Option (ℕ × ℕ) → Index → IndexQueryResult
final_answer b q (some a) ix = build_found_result b q (found_in b a) ix
final_answer b q none ix =
    if has_result q.prev_found_result
    then build_found_result b q q.prev_found_result ix
    else build_not_found_result b q ix

-- `ProcessReadNext`
unfoldable pub process_read_next : LogSpaceBase → IndexQuery → Index → Result Index
process_read_next b q ix =
    let query_view_id = get_view_id q.query_seqnum in
    if ltb b.view.id query_view_id then ok (push_result (build_not_found_result b q ix) ix) else (do
      at ← index_find_next q ix
      ok (
          push_result
            (if query_view_id == b.view.id
              then final_answer b q at ix
              else build_continue_result b q at ix)
            ix))

-- `ProcessReadPrev`
unfoldable pub process_read_prev : LogSpaceBase → IndexQuery → Index → Result Index
process_read_prev b q ix =
    if ltb (get_view_id q.query_seqnum) b.view.id
    then ok (push_result (build_continue_result b q none ix) ix)
    else (do
      at ← index_find_prev q ix
      ok (
          push_result
            (elim at [
              | some a ↦ build_found_result b q (found_in b a) ix
              | none ↦
                  if ltb 0 b.view.id
                  then build_continue_result b q none ix
                  else build_not_found_result b q ix
            ])
            ix))

-- `ProcessBlockingQuery`, which tells whether the query is done.
unfoldable pub process_blocking_query : LogSpaceBase → IndexQuery → Index → Result (Bool × Index)
process_blocking_query b q ix =
    let query_view_id = get_view_id q.query_seqnum in
    if ltb b.view.id query_view_id
    then ok (true, push_result (build_not_found_result b q ix) ix)
    else (do
      at ← index_find_next q ix
      ok (
          if query_view_id == b.view.id
          then (elim at [
            | some a ↦ (true, push_result (build_found_result b q (found_in b a) ix) ix)
            | none ↦ (false, ix)
          ])
          else (true, push_result (build_continue_result b q at ix) ix)))

-- `ProcessQuery`
unfoldable pub process_query : LogSpaceBase → ℕ → IndexQuery → Index → Result Index
process_query b now q ix = elim q.direction [
  | read_next ↦ process_read_next b q ix
  | read_prev ↦ process_read_prev b q ix
  | read_next_b ↦ (do
    (done, ix') ← process_blocking_query b q ix
    ok (if done then ix' else record ix' { blocking_reads = ix'.blocking_reads ++ (now, q) ∷ [] }))
]

-- Queries one after the other.
unfoldable pub process_queries : LogSpaceBase → ℕ → List IndexQuery → Index → Result Index
process_queries b now [] ix = ok ix
process_queries b now (q ∷ qs) ix = do ix' ← process_query b now q ix; process_queries b now qs ix'

-- The blocking reads again: one that waits for a second gets an empty answer.
unfoldable pub retry : LogSpaceBase → ℕ → List (ℕ × IndexQuery) → Index → Result Index
retry b now [] ix = ok ix
retry b now ((start, q) ∷ reads) ix = do
  (done, ix') ← process_blocking_query b q ix
  retry b now reads (
      if done
      then ix'
      else if ltb now (start + 1000000)
      then record ix' { blocking_reads = ix'.blocking_reads ++ (start, q) ∷ [] }
      else push_result (build_not_found_result b q ix') ix')

-- `GetOrCreateIndex`
unfoldable pub get_or_create_index : LogSpaceBase → ℕ → Map PerSpaceIndex → PerSpaceIndex
get_or_create_index b user_logspace m = elim (lookup user_logspace m) [
  | none ↦ per_space_index (identifier b) user_logspace
  | some s ↦ s
]

-- The received data below `end_seqnum` go into the index.
unfoldable pub index_data_until :
    LogSpaceBase → ℕ → Map IndexData → Map PerSpaceIndex → Map IndexData × Map PerSpaceIndex
index_data_until b end_seqnum [] m = ([], m)
index_data_until b end_seqnum ((seqnum, d) ∷ ds) m =
    let s = add seqnum d.engine_id d.user_tags (get_or_create_index b d.user_logspace m) in
    let rest = index_data_until b end_seqnum ds (insert d.user_logspace s m) in
    if ltb seqnum end_seqnum then rest else ((seqnum, d) ∷ ds, m)

-- The loop on the cuts.
unfoldable pub apply_cuts : LogSpaceBase → List (ℕ × ℕ) → Index → Index
apply_cuts b [] ix = record ix { cuts = [] }
apply_cuts b ((metalog_seqnum, end_seqnum) ∷ cuts) ix =
    let (ds, m) = index_data_until b end_seqnum ix.received_data ix.index in
    let rest = apply_cuts b cuts (record ix {
      index = m;
      received_data = ds;
      indexed_seqnum_position = end_seqnum;
      indexed_metalog_position = u32 (metalog_seqnum + 1);
    }) in
    if ltb ix.data_received_seqnum_position end_seqnum
    then record ix { cuts = (metalog_seqnum, end_seqnum) ∷ cuts }
    else rest

-- The pending queries that the position has reached, which are in front, and the others.
unfoldable pub ready_queries : ℕ → Map IndexQuery → List IndexQuery × Map IndexQuery
ready_queries position [] = ([], [])
ready_queries position ((k, q) ∷ qs) =
    let (ready, rest) = ready_queries position qs in
    if ltb position k then ([], (k, q) ∷ qs) else (q ∷ ready, rest)

-- `AdvanceIndexProgress`. Answering a query adds no pending query.
unfoldable pub advance_index_progress : LogSpaceBase → ℕ → Index → Result Index
advance_index_progress b now ix = do
  let applied = apply_cuts b ix.cuts ix
  retried ← retry b now applied.blocking_reads (record applied { blocking_reads = [] })
  let (ready, rest) = ready_queries retried.indexed_metalog_position retried.pending_queries
  process_queries b now ready (record retried { pending_queries = rest })

-- The first `n` tags and the others; a read out of bounds ends in `panic`.
unfoldable pub split_tags : ℕ → List ℕ → Result (List ℕ × List ℕ)
split_tags zero ts = ok ([], ts)
split_tags (suc n) [] = panic
split_tags (suc n) (t ∷ ts) = do (taken, rest) ← split_tags n ts; ok (t ∷ taken, rest)

-- A row of the index data, with the tags that it leaves for the rows behind it. A row that is indexed
-- or received already is dropped, and its tags are passed over.
unfoldable pub receive_row : ℕ → ℕ → ℕ → ℕ → List ℕ → Index → Result (List ℕ × Index)
receive_row s e u n ts ix =
    if ltb s ix.indexed_seqnum_position
    then ok (drop n ts, ix)
    else if contains s ix.received_data
    then ok (drop n ts, ix)
    else (do
      (tags, rest) ← split_tags n ts
      let d : IndexData = record { engine_id = u16 e; user_logspace = u; user_tags = tags }
      ok (rest, record ix { received_data = insert s d ix.received_data }))

unfoldable pub receive_rows : List ℕ → List ℕ → List ℕ → List ℕ → List ℕ → Index → Result Index
receive_rows [] es us ns ts ix = ok ix
receive_rows (s ∷ ss) [] us ns ts ix = panic
receive_rows (s ∷ ss) (e ∷ es) [] ns ts ix = panic
receive_rows (s ∷ ss) (e ∷ es) (u ∷ us) [] ts ix = panic
receive_rows (s ∷ ss) (e ∷ es) (u ∷ us) (n ∷ ns) ts ix = do
  (rest, ix') ← receive_row s e u n ts ix
  receive_rows ss es us ns rest ix'

-- The first position from `current` on whose data are not received, with fuel for the received.
unfoldable pub received_until : ℕ → Map IndexData → ℕ → ℕ
received_until zero m current = current
received_until (suc fuel) m current =
    let rest = received_until fuel m (u32 (current + 1)) in
    if contains current m then rest else current

-- `ProvideIndexData`
unfoldable pub provide_index_data : LogSpaceBase → ℕ → IndexDataProto → Index → Result Index
provide_index_data b now d ix = do
  ix' ← receive_rows d.seqnum_halves d.engine_ids d.user_logspaces d.user_tag_sizes d.user_tags ix
  advance_index_progress b now (record ix' {
    data_received_seqnum_position =
        received_until (length ix'.received_data) ix'.received_data
          ix'.data_received_seqnum_position;
  })

-- `kMaxMetalogPosition`
abbrev pub max_metalog_position : ℕ
max_metalog_position = 2 ^ 32 - 1

-- `MakeQuery`
unfoldable pub make_query : LogSpaceBase → ℕ → IndexQuery → Index → Result Index
make_query b now q ix =
    let view_id = get_view_id q.metalog_progress in
    let position = low_half64 q.metalog_progress in
    if q.initial
    then (if ltb b.view.id view_id
        then panic
        else if ltb view_id b.view.id
        then process_query b now q ix
        else if leb position ix.indexed_metalog_position
        then process_query b now q ix
        else ok (record ix { pending_queries = insert_multi position q ix.pending_queries }))
    else if is_finalized b
    then process_query b now q ix
    else ok (record ix { pending_queries = insert_multi max_metalog_position q ix.pending_queries })

-- `PollQueryResults`, behind the results that the caller holds.
unfoldable pub poll_query_results : List IndexQueryResult → Index → List IndexQueryResult × Index
poll_query_results results ix =
    (results ++ ix.pending_query_results, record ix { pending_query_results = [] })

unfoldable pub end_of_cut : ℕ → List ℕ → ℕ
end_of_cut seqnum [] = seqnum
end_of_cut seqnum (delta ∷ deltas) = end_of_cut (u32 (seqnum + delta)) deltas

-- `OnMetaLogApplied`
unfoldable pub on_meta_log_applied : ℕ → LogSpaceBase → MetaLogProto → Index → Result Index
on_meta_log_applied now b m ix = advance_index_progress b now (elim m.type [
  | new_logs ↦ record ix {
    cuts =
        ix.cuts
        ++ (
          m.metalog_seqnum,
          end_of_cut (u32 m.new_logs_proto.start_seqnum) m.new_logs_proto.shard_deltas,
        )
          ∷ [];
  }
  | _ ↦ ix
])

unfoldable pub queries_of : Map IndexQuery → List IndexQuery
queries_of [] = []
queries_of ((k, q) ∷ qs) = q ∷ queries_of qs

-- `OnFinalized`: every pending query is answered.
unfoldable pub on_finalized : ℕ → LogSpaceBase → ℕ → Index → Result Index
on_finalized now b metalog_position ix =
    process_queries b now (queries_of ix.pending_queries) (record ix { pending_queries = [] })

-- The virtual methods of the class.
abbrev pub index_hooks : ℕ → Hooks Index
index_hooks now = record {
  on_new_logs = λ b m s l d x. ok x;
  on_trim = λ b m u t s x. ok x;
  on_meta_log_applied = on_meta_log_applied now;
  on_finalized = on_finalized now;
}
