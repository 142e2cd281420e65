-- ===== src/Primary/Majority.antt =====
-- The primary, its replicas and the replicated position, in every state that calls lead to.
use boki.Base.{
  ℕ, suc, ◌*◌, ◌≤◌, ◌<◌, ◌∷◌, true, ◌≡◌, sym, subst, ◌∙◌, inl, inr, elem, length, ltb, ltb→le,
  le→ltb, Option, ◌==◌, ==_iff, lookup, insert, contains, contains-insert, AllKeys-mono, ok, panic,
  ok-injective, Bool-cases, arith,
}
use boki.Proto.{MetaLogProto}
use boki.View.{View, is_replica_sequencer_node}
use boki.LogSpace.{LogSpaceBase, no_hooks, provide_meta_log}
use boki.LogSpace.Frame.{
  ignored, outdated, taken, provide_meta_log-Delivery, provide_meta_log-IsStatic,
}
use boki.Primary.{
  MetaLogPrimary, or_zero, meta_log_primary, update_replica_progress, mark_next_cut, progresses,
  cut_metalog, CutParts,
}
use boki.Primary.Quorum.{
  HasQuorum, count_ge, Recomputed, update_replicated_position-Recomputed, replica_report,
}
use boki.Primary.Safety.{clean, marked, mark_next_cut-Cut}
use boki.Primary.Reach.{Step, Reach, here, next, stores, replicates, cuts}
use boki.Primary.Replicas.{replicas, IsOfReplicas, IsSound, stores-IsSound, new-IsSound}

-- A replica's report changes its own progress, and perhaps the replicated position.
replicates-IsOfReplicas :
    (id position : ℕ) (p : MetaLogPrimary) {p' : MetaLogPrimary}
    → IsOfReplicas p
    → is_replica_sequencer_node p.base.sequencer_node id ≡ true
    → position ≤ p.base.metalog_position
    → update_replica_progress id position p ≡ ok p'
    → IsOfReplicas p'
unfolding update_replica_progress is_replica_sequencer_node
replicates-IsOfReplicas id position p {p'} all member within h =
    elim (Bool-cases (ltb (or_zero (lookup id p.metalog_progresses)) position)) [
      | inl up ↦ recomputed (
          update_replicated_position-Recomputed _
            (rw (member, le→ltb _ _ within, up, update_replica_progress) at h))
      | inr down ↦
          subst IsOfReplicas
            (ok-injective (rw (member, le→ltb _ _ within, down, update_replica_progress) at h))
            (inserted (or_zero (lookup id p.metalog_progresses)))
    ]
  where
    inserted :
        (v : ℕ) → IsOfReplicas (record p { metalog_progresses = insert id v p.metalog_progresses })
    inserted v r = elim (Bool-cases (id == r)) [
      | inl same ↦
          contains-insert id r v p.metalog_progresses
          ∙ rw same (sym (subst (λ k. elem k (replicas p) ≡ true) ((==_iff id r).0 same) member))
      | inr other ↦ contains-insert id r v p.metalog_progresses ∙ rw other (all r)
    ]

    recomputed :
        Recomputed (record p { metalog_progresses = insert id position p.metalog_progresses }) p'
        → IsOfReplicas p'
    recomputed (inl same) = subst IsOfReplicas (sym same) (inserted position)
    recomputed (inr (x, _, same)) = subst IsOfReplicas (sym same) (inserted position)

replicates-IsSound :
    (id position : ℕ) (p : MetaLogPrimary) {p' : MetaLogPrimary}
    → IsSound p
    → update_replica_progress id position p ≡ ok p'
    → IsSound p'
unfolding update_replica_progress
replicates-IsSound id position p {p'} s h =
    elim (Bool-cases (is_replica_sequencer_node p.base.sequencer_node id)) [
      | inl member ↦ elim (Bool-cases (ltb p.base.metalog_position position)) [
        | inl ahead ↦ refused (rw (member, ahead, update_replica_progress) at h)
        | inr within ↦
            let le = ltb→le _ _ within in
            let (made, e, q, _) = replica_report id position p s.quorum member le in
            record {
              quorum = subst HasQuorum (ok-injective (sym e ∙ h)) q;
              of_replicas = replicates-IsOfReplicas id position p s.of_replicas member le h;
            }
      ]
      | inr foreign ↦ refused (rw (foreign, update_replica_progress) at h)
    ]
  where
    refused : panic ≡ ok p' → IsSound p'
    refused e = cc

cuts-IsSound :
    (p : MetaLogPrimary) {m : Option MetaLogProto} {p' : MetaLogPrimary}
    → IsSound p
    → mark_next_cut p ≡ ok (m, p')
    → IsSound p'
cuts-IsSound p s h = elim (mark_next_cut-Cut p h) [
  | clean _ e ↦ subst (λ r. IsSound r.1) (sym e) s
  | marked c b parts given e ↦
      let static = provide_meta_log-IsStatic no_hooks (cut_metalog p c) p.base tt given in
      let up = grows c b given in
      let q = s.quorum in
      subst (λ r. IsSound r.1) (sym e)
        (record {
          quorum = record {
            known = rw static.node q.known;
            sorted = q.sorted;
            bounded =
                AllKeys-mono (λ _ v. v ≤ p.base.metalog_position) (λ _ v. v ≤ b.metalog_position)
                  p.metalog_progresses (λ k v le. omega (arith, le, up)) q.bounded;
            reached = q.reached;
            below = omega (arith, q.below, up);
          };
          of_replicas = rw static.node s.of_replicas;
        })
]
  where
    grows :
        (c : CutParts) (b : LogSpaceBase)
        → provide_meta_log no_hooks (cut_metalog p c) p.base tt ≡ ok (true, b, tt)
        → p.base.metalog_position ≤ b.metalog_position
    grows c b given = elim (provide_meta_log-Delivery no_hooks (cut_metalog p c) p.base tt given) [
      | ignored _ e ↦ cc
      | outdated _ e ↦ cc
      | taken _ b₁ s₁ run e ↦ ground (arith, e)
    ]

Step-IsSound : {p q : MetaLogPrimary} → Step p q → IsSound p → IsSound q
Step-IsSound {p} (stores id progress h) s = stores-IsSound id progress p s h
Step-IsSound {p} (replicates id position h) s = replicates-IsSound id position p s h
Step-IsSound {p} (cuts m h) s = cuts-IsSound p s h

Reach-IsSound : {p q : MetaLogPrimary} → Reach p q → IsSound p → IsSound q
Reach-IsSound here s = s
Reach-IsSound (next r step) s = Step-IsSound step (Reach-IsSound r s)

-- After any calls on a new primary, the progress it keeps is that of its replicas and of no other
-- node, and more than half of the sequencers that hold the metalog, the primary with its replicas,
-- have come as far as the replicated position.
pub replicated_by_majority :
    (view : View) (id : ℕ) {p q : MetaLogPrimary}
    → meta_log_primary view id ≡ ok p
    → Reach p q
    → ((r : ℕ)
        → contains r q.metalog_progresses ≡ elem r q.base.sequencer_node.replica_sequencer_nodes)
      × (suc (length (progresses q))
          < 2 * count_ge q.replicated_metalog_position (q.base.metalog_position ∷ progresses q))
replicated_by_majority view id {p} {q} made r =
    let s = Reach-IsSound r (new-IsSound view id made) in
    (s.of_replicas, ground (arith, s.quorum.reached, s.quorum.below))
