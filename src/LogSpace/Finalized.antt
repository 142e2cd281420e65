-- ===== src/LogSpace/Finalized.antt =====
-- `Finalize`: how far a log space gets, and the state that it leaves.
use boki.Base.{
  ℕ, suc, ◌<◌, ◌≤◌, ◌^◌, List, Bool, true, false, ◌≡◌, ok, arith, Result-cases, ◌⊎◌, inl, inr,
}
use boki.Proto.{MetaLogProto}
use boki.LogSpace.{LogSpaceBase, Hooks, finalize, provide_all, is_finalized}
use boki.LogSpace.Frame.{provide_all-IsStatic}

module _ {S : Type 0} (h : Hooks S) where
  -- A call that returns starts at most one above the final position. From a position not above it,
  -- the log space ends at the final position and reports success, or ends below it and reports
  -- failure; from one above, nothing moves and success is reported.
  pub finalize_reports :
      (final : ℕ) (tail : List MetaLogProto) (b : LogSpaceBase) (s : S) {done : Bool}
      {b' : LogSpaceBase} {s' : S}
      → suc final < 2 ^ 32
      → finalize h final tail b s ≡ ok (done, b', s')
      → ((b.metalog_position ≤ final) × (done ≡ true) × (b'.metalog_position ≡ final))
        ⊎ ((b.metalog_position ≤ final) × (done ≡ false) × (b'.metalog_position < final))
        ⊎ ((b.metalog_position ≡ suc final) × (done ≡ true) × (b' ≡ b))
  unfolding finalize
  finalize_reports final tail b s bound e = ground arith

  -- A successful `Finalize` never makes a log space finalized: the accessor answers as before.
  pub finalize_leaves_state :
      (final : ℕ) (tail : List MetaLogProto) (b : LogSpaceBase) (s : S) {done : Bool}
      {b' : LogSpaceBase} {s' : S}
      → finalize h final tail b s ≡ ok (done, b', s')
      → is_finalized b' ≡ is_finalized b
  unfolding finalize is_finalized
  finalize_leaves_state final tail b s e = elim (Result-cases (provide_all h tail b s)) [
    | inl (r, given) ↦ ground (arith, given, (provide_all-IsStatic h tail b s given).state)
    | inr failed ↦ ground (arith, failed)
  ]
