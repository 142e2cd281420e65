-- ===== src/Controller/Majority.antt =====
-- Two quorums meet: what a majority of the sequencers of a metalog holds is under its final position.
use boki.Base.{
  ℕ, zero, suc, ◌*◌, ◌^◌, ◌≤◌, ◌<◌, List, [], ◌∷◌, Option, none, some, Bool, true, false, ◌≡◌, ◌↔◌,
  refl, sym, ap, ◌∙◌, subst, leb, ◌==◌, ==_iff, leb→le, if◌then◌else◌, elem, length, get_elem?, All,
  Map, lookup, contains, contains-lookup, AllKeys, IsSorted, some-injective, arith,
}
use boki.Bits.{join_two16, high_half32}
use boki.Proto.{MetaLogProto, MetaLogsProto, FinalizedViewProto}
use boki.Controller.Counting.{count, count-overlap}
use boki.Controller.Tail.{AreSmall, build_final_tail_metalog-gt}
use boki.Controller.Quorum.{
  ComeFrom, length-collected, collected-member, collected-All, seal_phylogs_lem,
}
use boki.Controller.Seal.{
  OngoingSeal, build_final_tail_metalog, collected, seal_phylogs, check_all_sealed,
}

pub check_all_sealed-seal_phylogs :
    (seal : OngoingSeal) {f : FinalizedViewProto}
    → check_all_sealed seal ≡ some f
    → (r : List ℕ × List MetaLogsProto) × (seal_phylogs seal.view seal.tail_metalogs seal.phylogs
        ≡ some r)
      × (f.metalog_positions ≡ r.0)
      × (f.tail_metalogs ≡ r.1)
unfolding check_all_sealed
check_all_sealed-seal_phylogs seal {f} h =
    go (seal_phylogs seal.view seal.tail_metalogs seal.phylogs) refl h
  where
    go :
        (o : Option (List ℕ × List MetaLogsProto))
        → seal_phylogs seal.view seal.tail_metalogs seal.phylogs ≡ o
        → (elim o [
          | none ↦ none
          | some (positions, finals) ↦ some (record {
            view_id = seal.view.id;
            metalog_positions = positions;
            tail_metalogs = finals;
          })
        ])
          ≡ some f
        → (r : List ℕ × List MetaLogsProto) × (seal_phylogs seal.view seal.tail_metalogs
              seal.phylogs
            ≡ some r)
          × (f.metalog_positions ≡ r.0)
          × (f.tail_metalogs ≡ r.1)
    go none e h = cc
    go (some r) e h = (
      r,
      e,
      sym (ap (λ (x : FinalizedViewProto). x.metalog_positions) (some-injective h)),
      sym (ap (λ (x : FinalizedViewProto). x.tail_metalogs) (some-injective h)),
    )

-- The tail holds the entry before the position.
abbrev pub ReachesBack : ℕ → MetaLogsProto → Type 0
ReachesBack position t =
    (j : ℕ) × (m : MetaLogProto) × (get_elem? t.metalogs j ≡ some m)
    × (suc m.metalog_seqnum ≡ position)

-- The key of a log space and a sequencer keeps the log space.
pub high_half32-join_two16 :
    (p s : ℕ) → p < 2 ^ 16 → s < 2 ^ 16 → (high_half32 (join_two16 p s) == p) ≡ true
unfolding high_half32 join_two16
high_half32-join_two16 p s h h' = (==_iff _ _).1 (omega (arith, h, h'))

pub All-elem : (P : ℕ → Type 0) (s : ℕ) (xs : List ℕ) → All P xs → elem s xs ≡ true → P s
All-elem P s [] h e = cc
All-elem P s (x ∷ xs) h e = go (x == s) (==_iff x s) (All-elem P s xs h.1) e
  where
    go :
        (b : Bool)
        → (b ≡ true ↔ x ≡ s)
        → (elem s xs ≡ true → P s)
        → (if b then true else elem s xs) ≡ true
        → P s
    go true same ih e = subst P (same.0 refl) h.0
    go false same ih e = ih e

contains-found :
    (k : ℕ) (tails : Map MetaLogsProto)
    → contains k tails ≡ true
    → (t : MetaLogsProto) × (lookup k tails ≡ some t)
contains-found k tails h = go (lookup k tails) refl (sym (contains-lookup k tails) ∙ h)
  where
    go :
        (o : Option MetaLogsProto)
        → lookup k tails ≡ o
        → (elim o [ none ↦ false | some _ ↦ true ]) ≡ true
        → (t : MetaLogsProto) × (lookup k tails ≡ some t)
    go none e h = cc
    go (some t) e h = (t, e)

module _ (seal : OngoingSeal) (ids : List ℕ) (p : ℕ) (at : ℕ → ℕ) (replicated : ℕ) where
  -- When the controller has sealed a view, the final position of a metalog is at least every position
  -- that a majority of the metalog's sequencers has reached. The tails are in a map by log space and
  -- sequencer with one from each, those of the metalog come from its sequencers, of which there are as
  -- many as the view has metalog replicas, ids fit 16 bits, no sequence number is 2 ^ 32 - 1, and a
  -- sequencer that is past position 0 has the entry before its position in its tail.
  pub sealed_covers_replicated :
      {f : FinalizedViewProto} (i : ℕ)
      → check_all_sealed seal ≡ some f
      → get_elem? seal.phylogs i ≡ some p
      → p < 2 ^ 16
      → All (λ s. s < 2 ^ 16) ids
      → length ids ≡ seal.view.metalog_replicas
      → IsSorted 0 seal.tail_metalogs
      → ComeFrom ids p seal.tail_metalogs
      → AllKeys (λ k (t : MetaLogsProto). AreSmall t.metalogs) seal.tail_metalogs
      → ((s : ℕ) (t : MetaLogsProto)
          → lookup (join_two16 p s) seal.tail_metalogs ≡ some t
          → 0 < at s
          → ReachesBack (at s) t)
      → length ids < 2 * count (λ s. leb replicated (at s)) ids
      → (final : ℕ) × (get_elem? f.metalog_positions i ≡ some final) × (replicated ≤ final)
  sealed_covers_replicated {f} i h is small smalls all sorted from few reaches majority =
      let (r, sealed, positions, _) = check_all_sealed-seal_phylogs seal h in
      let (quorum, at_i, _) =
        seal_phylogs_lem seal.view seal.tail_metalogs seal.phylogs i p sealed is in
      let (s, member, there, past) =
        count-overlap (λ s. contains (join_two16 p s) seal.tail_metalogs)
          (λ s. leb replicated (at s)) ids
          (omega (
            arith,
            all,
            quorum,
            majority,
            length-collected ids p 0 seal.tail_metalogs sorted from,
          )) in
      let (t, found) = contains-found (join_two16 p s) seal.tail_metalogs there in
      let (k, at_k) =
        collected-member p (join_two16 p s) seal.tail_metalogs
          (high_half32-join_two16 p s small (All-elem (λ s. s < 2 ^ 16) s ids smalls member))
          found in
      let low : at s ≤ (build_final_tail_metalog (collected p seal.tail_metalogs)).0 =
        covered s t k found at_k (collected-All p seal.tail_metalogs few) (reaches s t found) in
      (
        (build_final_tail_metalog (collected p seal.tail_metalogs)).0,
        ap (λ xs. get_elem? xs i) positions ∙ at_i,
        omega (arith, low, leb→le replicated (at s) past),
      )
    where
      covered :
          (s : ℕ) (t : MetaLogsProto) (k : ℕ)
          → lookup (join_two16 p s) seal.tail_metalogs ≡ some t
          → get_elem? (collected p seal.tail_metalogs) k ≡ some t
          → All (λ (t : MetaLogsProto). AreSmall t.metalogs) (collected p seal.tail_metalogs)
          → (0 < at s → ReachesBack (at s) t)
          → at s ≤ (build_final_tail_metalog (collected p seal.tail_metalogs)).0
      covered s t k found at_k all_small back = go (at s) back
        where
          go :
              (n : ℕ)
              → (0 < n → ReachesBack n t)
              → n ≤ (build_final_tail_metalog (collected p seal.tail_metalogs)).0
          go zero back = omega arith
          go (suc n) back =
              let (j, m, at_j, last) = back (omega arith) in
              omega (
                arith,
                last,
                build_final_tail_metalog-gt (collected p seal.tail_metalogs) k j all_small at_k
                    at_j,
              )
