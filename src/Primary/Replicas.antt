-- ===== src/Primary/Replicas.antt =====
-- What a primary knows of its replicas: at the start, and after the reports of storage nodes.
use boki.Base.{
  ℕ, ◌+◌, ◌/◌, ◌≤◌, List, [], ◌∷◌, ◌≡◌, refl, sym, subst, ◌∙◌, inl, inr, elem, length, ltb, ◌||◌,
  Map, lookup, insert, contains, contains-insert, insert-IsSorted, IsSorted, AllKeys,
  AllKeys-insert, ok, expect, >>=-eq-ok, ok-injective, Bool-cases, arith,
}
use boki.View.{View}
use boki.LogSpace.{log_space_base, full_mode}
use boki.Primary.{
  MetaLogPrimary, update, or_zero, mark_dirty, init_engines, init_replicas, meta_log_primary,
  shard_replicated_position, update_shard, update_shards, update_storage_progress,
}
use boki.Primary.Quorum.{HasQuorum, count_ge, values}

abbrev pub replicas : MetaLogPrimary → List ℕ
replicas p = p.base.sequencer_node.replica_sequencer_nodes

-- The progress is that of the replicas and of no other node.
abbrev pub IsOfReplicas : MetaLogPrimary → Type 0
IsOfReplicas p = (r : ℕ) → contains r p.metalog_progresses ≡ elem r (replicas p)

init_replicas-contains :
    (r : ℕ) (ids : List ℕ) (m : Map ℕ)
    → contains r (init_replicas ids m) ≡ (elem r ids || contains r m)
unfolding init_replicas
init_replicas-contains r [] m = refl
init_replicas-contains r (id ∷ ids) m =
    ground (arith, init_replicas-contains r ids (insert id 0 m), contains-insert id r 0 m)

init_replicas-IsSorted :
    (ids : List ℕ) (m : Map ℕ) → IsSorted 0 m → IsSorted 0 (init_replicas ids m)
unfolding init_replicas
init_replicas-IsSorted [] m s = s
init_replicas-IsSorted (id ∷ ids) m s =
    init_replicas-IsSorted ids (insert id 0 m) (insert-IsSorted 0 id 0 m (omega arith) s)

init_replicas-AllKeys :
    (hi : ℕ) (ids : List ℕ) (m : Map ℕ)
    → AllKeys (λ _ v. v ≤ hi) m
    → AllKeys (λ _ v. v ≤ hi) (init_replicas ids m)
unfolding init_replicas
init_replicas-AllKeys hi [] m a = a
init_replicas-AllKeys hi (id ∷ ids) m a =
    init_replicas-AllKeys hi ids (insert id 0 m)
      (AllKeys-insert (λ _ v. v ≤ hi) id 0 m (omega arith) a)

count_ge-zero : (xs : List ℕ) → count_ge 0 xs ≡ length xs
count_ge-zero [] = refl
count_ge-zero (x ∷ xs) = ground (arith, count_ge-zero xs)

-- What the reports of storage nodes leave alone.
record Keeps (p p' : MetaLogPrimary) : Type 0 where
  base : p'.base ≡ p.base
  progress : p'.metalog_progresses ≡ p.metalog_progresses
  replicated : p'.replicated_metalog_position ≡ p.replicated_metalog_position

Keeps-refl : {p : MetaLogPrimary} → Keeps p p
Keeps-refl = record { base = refl; progress = refl; replicated = refl }

Keeps-trans : {p q r : MetaLogPrimary} → Keeps p q → Keeps q r → Keeps p r
Keeps-trans a b = record {
  base = b.base ∙ a.base;
  progress = b.progress ∙ a.progress;
  replicated = b.replicated ∙ a.replicated;
}

init_engines-Keeps :
    (v : View) (es : List ℕ) (p : MetaLogPrimary) {p' : MetaLogPrimary}
    → init_engines v es p ≡ ok p'
    → Keeps p p'
unfolding init_engines
init_engines-Keeps v [] p h = subst (Keeps p) (ok-injective h) Keeps-refl
init_engines-Keeps v (e ∷ es) p h =
    let (node, _, rest) = >>=-eq-ok (expect (lookup e v.engine_nodes)) _ h in
    let k = init_engines-Keeps v es _ rest in
    record { base = k.base; progress = k.progress; replicated = k.replicated }

mark_dirty-Keeps : (e cut current : ℕ) (p : MetaLogPrimary) → Keeps p (mark_dirty e cut current p)
unfolding mark_dirty
mark_dirty-Keeps e cut current p = record {
  base = ground arith;
  progress = ground arith;
  replicated = ground arith;
}

update_shard-Keeps :
    (storage_id e progress : ℕ) (p : MetaLogPrimary) {p' : MetaLogPrimary}
    → update_shard storage_id e progress p ≡ ok p'
    → Keeps p p'
unfolding update_shard
update_shard-Keeps storage_id e progress p h =
    elim (Bool-cases (ltb (or_zero (p.storage_progresses e storage_id)) progress)) [
      | inl up ↦
          let q = record p {
            storage_progresses = update e storage_id progress p.storage_progresses;
          } in
          let (current, _, h₁) =
            >>=-eq-ok (shard_replicated_position q e) _ (rw (up, update_shard) at h) in
          let (cut, _, h₂) = >>=-eq-ok (expect (lookup e p.last_cut)) _ h₁ in
          let k = mark_dirty-Keeps e cut current q in
          subst (Keeps p) (ok-injective h₂)
            (record { base = k.base; progress = k.progress; replicated = k.replicated })
      | inr down ↦
          subst (Keeps p) (ok-injective (rw (down, update_shard) at h))
            (record { base = refl; progress = refl; replicated = refl })
    ]

update_shards-Keeps :
    (storage_id : ℕ) (es progress : List ℕ) (p : MetaLogPrimary) {p' : MetaLogPrimary}
    → update_shards storage_id es progress p ≡ ok p'
    → Keeps p p'
unfolding update_shards
update_shards-Keeps storage_id [] [] p h = subst (Keeps p) (ok-injective h) Keeps-refl
update_shards-Keeps storage_id (e ∷ es) (v ∷ vs) p h =
    let (q, one, rest) = >>=-eq-ok (update_shard storage_id e v p) _ h in
    Keeps-trans (update_shard-Keeps storage_id e v p one)
      (update_shards-Keeps storage_id es vs q rest)
update_shards-Keeps storage_id [] (v ∷ vs) p h = cc
update_shards-Keeps storage_id (e ∷ es) [] p h = cc

-- What the primary knows is sound, and about the replicas only.
pub record IsSound (p : MetaLogPrimary) : Type 0 where
  pub quorum : HasQuorum p
  pub of_replicas : IsOfReplicas p

-- The reports of storage nodes leave it sound.
pub stores-IsSound :
    (storage_id : ℕ) (progress : List ℕ) (p : MetaLogPrimary) {p' : MetaLogPrimary}
    → IsSound p
    → update_storage_progress storage_id progress p ≡ ok p'
    → IsSound p'
unfolding update_storage_progress
stores-IsSound storage_id progress p s h =
    let (node, _, rest) = >>=-eq-ok (expect (lookup storage_id p.base.view.storage_nodes)) _ h in
    let k = update_shards-Keeps storage_id node.source_engine_nodes progress p rest in
    let q = s.quorum in
    record {
      quorum = record {
        known = rw (k.base, k.progress) q.known;
        sorted = rw k.progress q.sorted;
        bounded = rw (k.base, k.progress) q.bounded;
        reached = rw (k.replicated, k.progress) q.reached;
        below = rw (k.replicated, k.base) q.below;
      };
      of_replicas = rw (k.base, k.progress) s.of_replicas;
    }

-- So it is when the primary is new.
pub new-IsSound :
    (view : View) (id : ℕ) {p : MetaLogPrimary} → meta_log_primary view id ≡ ok p → IsSound p
unfolding meta_log_primary contains
new-IsSound view id h =
    let (b, new, h₁) = >>=-eq-ok (log_space_base full_mode view id) _ h in
    let (p₁, filled, h₂) = >>=-eq-ok (init_engines view view.engine_node_ids _) _ h₁ in
    let k = init_engines-Keeps view view.engine_node_ids _ filled in
    let ids = b.sequencer_node.replica_sequencer_nodes in
    let m = init_replicas ids [] in
    subst IsSound (ok-injective h₂) (record {
      quorum = record {
        known = λ r e. ground (arith, init_replicas-contains r ids [], e);
        sorted = init_replicas-IsSorted ids [] tt;
        bounded = init_replicas-AllKeys b.metalog_position ids [] tt;
        reached =
            subst (λ r. length (values m) ≤ length (values m) / 2 + count_ge r (values m))
              (sym k.replicated) (omega (arith, count_ge-zero (values m)));
        below = omega (arith, k.replicated);
      };
      of_replicas = λ r. ground (arith, init_replicas-contains r ids []);
    })
