-- ===== src/Index/Answers.antt =====
-- The class `Index` loses no query: each one that it takes up is answered once or waits among the
-- blocking reads, and finalization takes up all that are pending.
use boki.Base.{
  ℕ, suc, ◌+◌, List, [], ◌∷◌, ◌++◌, Option, none, some, Bool, true, false, ◌≡◌, refl, ap, ◌∙◌,
  subst, ltb, ◌==◌, if◌then◌else◌, length, length-append, Map, Result, ok, ◌>>=◌, >>=-eq-ok,
  ok-injective, arith,
}
use boki.Bits.{get_view_id}
use boki.LogSpace.{LogSpaceBase}
use boki.Index.{IndexQuery, ReadDirection, read_next, read_prev, read_next_b, IndexQueryResult}
use boki.Index.Queries.{
  Index, push_result, process_read_next, process_read_prev, process_blocking_query, process_query,
  process_queries, queries_of, on_finalized, build_found_result, build_continue_result, found_in,
  index_find_next, index_find_prev,
}

-- The answers and the blocking reads.
abbrev pub taken_up : Index → ℕ
taken_up ix = length ix.pending_query_results + length ix.blocking_reads

-- `n` more queries are answered or blocked, and the queries that are pending stay.
pub record TakesUp (n : ℕ) (ix ix' : Index) : Type 0 where
  pub more : taken_up ix' ≡ n + taken_up ix
  pub kept : ix'.pending_queries ≡ ix.pending_queries

push_result-TakesUp : (r : IndexQueryResult) (ix : Index) → TakesUp 1 ix (push_result r ix)
push_result-TakesUp r ix = record {
  more = omega (arith, length-append ix.pending_query_results (r ∷ []));
  kept = refl;
}

-- Code that returns early under a test or goes on after a search.
early_or_late :
    {A B : Type 0} (P : A → Type 0) (t : Bool) (a : A) (m : Result B) (f : B → Result A) {c : A}
    → P a
    → ((x : B) → f x ≡ ok c → P c)
    → (if t then ok a else (m >>= f)) ≡ ok c
    → P c
early_or_late P true a m f pa pf h = subst P (ok-injective h) pa
early_or_late P false a m f pa pf h = let (x, got, h₁) = >>=-eq-ok m f h in pf x h₁

process_read_next-TakesUp :
    (b : LogSpaceBase) (q : IndexQuery) (ix : Index) {ix' : Index}
    → process_read_next b q ix ≡ ok ix'
    → TakesUp 1 ix ix'
unfolding process_read_next
process_read_next-TakesUp b q ix h =
    early_or_late (TakesUp 1 ix) (ltb b.view.id (get_view_id q.query_seqnum)) _
      (index_find_next q ix) _ (push_result-TakesUp _ ix)
      (λ at e. subst (TakesUp 1 ix) (ok-injective e) (push_result-TakesUp _ ix)) h

process_read_prev-TakesUp :
    (b : LogSpaceBase) (q : IndexQuery) (ix : Index) {ix' : Index}
    → process_read_prev b q ix ≡ ok ix'
    → TakesUp 1 ix ix'
unfolding process_read_prev
process_read_prev-TakesUp b q ix h =
    early_or_late (TakesUp 1 ix) (ltb (get_view_id q.query_seqnum) b.view.id) _
      (index_find_prev q ix) _ (push_result-TakesUp _ ix)
      (λ at e. subst (TakesUp 1 ix) (ok-injective e) (push_result-TakesUp _ ix)) h

-- A blocking query that is not done leaves the state.
abbrev Tried : Index → Bool × Index → Type 0
Tried ix (true, ix') = TakesUp 1 ix ix'
Tried ix (false, ix') = ix ≡ ix'

process_blocking_query-Tried :
    (b : LogSpaceBase) (q : IndexQuery) (ix : Index) {r : Bool × Index}
    → process_blocking_query b q ix ≡ ok r
    → Tried ix r
unfolding process_blocking_query
process_blocking_query-Tried b q ix h =
    early_or_late (Tried ix) (ltb b.view.id (get_view_id q.query_seqnum)) _ (index_find_next q ix) _
      (push_result-TakesUp _ ix)
      (λ at e. subst (Tried ix) (ok-injective e) (go (get_view_id q.query_seqnum == b.view.id) at))
      h
  where
    go :
        (t : Bool) (at : Option (ℕ × ℕ))
        → Tried ix (
            if t
            then (elim at as (λ _. Bool × Index) [
              | some a ↦ (true, push_result (build_found_result b q (found_in b a) ix) ix)
              | none ↦ (false, ix)
            ])
            else (true, push_result (build_continue_result b q at ix) ix))
    go true none = refl
    go true (some a) = push_result-TakesUp _ ix
    go false at = push_result-TakesUp _ ix

process_query-TakesUp :
    (b : LogSpaceBase) (now : ℕ) (q : IndexQuery) (ix : Index) {ix' : Index}
    → process_query b now q ix ≡ ok ix'
    → TakesUp 1 ix ix'
unfolding process_query
process_query-TakesUp b now q ix {ix'} h = go q.direction h
  where
    block :
        (done : Bool) (ix₁ : Index)
        → Tried ix (done, ix₁)
        → TakesUp 1 ix (
            if done
            then ix₁
            else record ix₁ { blocking_reads = ix₁.blocking_reads ++ (now, q) ∷ [] })
    block true ix₁ t = t
    block false ix₁ t =
        subst (λ i. TakesUp 1 ix (record i { blocking_reads = i.blocking_reads ++ (now, q) ∷ [] }))
          t
          (record {
            more = omega (arith, length-append ix.blocking_reads ((now, q) ∷ []));
            kept = refl;
          })

    go :
        (d : ReadDirection)
        → (elim d as (λ _. Result Index) [
          | read_next ↦ process_read_next b q ix
          | read_prev ↦ process_read_prev b q ix
          | read_next_b ↦ (do
            (done, ix₁) ← process_blocking_query b q ix
            ok (
                if done
                then ix₁
                else record ix₁ { blocking_reads = ix₁.blocking_reads ++ (now, q) ∷ [] }))
        ])
          ≡ ok ix'
        → TakesUp 1 ix ix'
    go read_next h = process_read_next-TakesUp b q ix h
    go read_prev h = process_read_prev-TakesUp b q ix h
    go read_next_b h =
        let (r, got, h₁) = >>=-eq-ok (process_blocking_query b q ix) _ h in
        subst (TakesUp 1 ix) (ok-injective h₁)
          (block r.0 r.1 (process_blocking_query-Tried b q ix got))

process_queries-TakesUp :
    (b : LogSpaceBase) (now : ℕ) (qs : List IndexQuery) (ix : Index) {ix' : Index}
    → process_queries b now qs ix ≡ ok ix'
    → TakesUp (length qs) ix ix'
unfolding process_queries
process_queries-TakesUp b now [] ix h =
    subst (TakesUp 0 ix) (ok-injective h) (record { more = omega arith; kept = refl })
process_queries-TakesUp b now (q ∷ qs) ix h =
    let (ix₁, got, h₁) = >>=-eq-ok (process_query b now q ix) _ h in
    let first = process_query-TakesUp b now q ix got in
    let rest = process_queries-TakesUp b now qs ix₁ h₁ in
    record { more = omega (arith, first.more, rest.more); kept = rest.kept ∙ first.kept }

length-queries_of : (m : Map IndexQuery) → length (queries_of m) ≡ length m
unfolding queries_of
length-queries_of [] = refl
length-queries_of ((k, q) ∷ m) = ap suc (length-queries_of m)

-- When the finalization of a log space's index returns, no query is pending, and the answers and
-- the blocking reads together have grown by exactly the number of queries that were pending.
pub finalized_takes_up_all :
    (now : ℕ) (b : LogSpaceBase) (metalog_position : ℕ) (ix : Index) {ix' : Index}
    → on_finalized now b metalog_position ix ≡ ok ix'
    → (ix'.pending_queries ≡ []) × (taken_up ix' ≡ length ix.pending_queries + taken_up ix)
unfolding on_finalized
finalized_takes_up_all now b metalog_position ix h =
    let t = process_queries-TakesUp b now (queries_of ix.pending_queries) _ h in
    (t.kept, omega (arith, t.more, length-queries_of ix.pending_queries))
