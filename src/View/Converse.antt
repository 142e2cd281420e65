-- ===== src/View/Converse.antt =====
-- In a constructed view, what the nodes know of each other agrees.
use boki.Base.{
  ap, ℕ, ◌+◌, List, [], ◌∷◌, some, elem, ◌≡◌, lookup, lookup-insert, subst, sym, ◌-◌, ok, >>=-eq-ok,
  ok-injective, arith, map,
}
use boki.Bits.{u16}
use boki.Proto.{ViewProto}
use boki.View.Plan.{Links, no_links, links_of, read_plan}
use boki.View.Plans.{read_plan_agrees}
use boki.View.{
  View, Engine, Sequencer, Storage, view_of_proto, engine_of, engine_map, storage_map, assemble,
  sequencers_of, replicas_of, has_index_for, is_source_engine_node,
}

lookup-engine_map :
    (storage index : Links) (ids : List ℕ) (k : ℕ) {e : Engine}
    → lookup k (engine_map storage index ids) ≡ some e
    → e ≡ engine_of storage index k
unfolding engine_map lookup
lookup-engine_map storage index [] k h = cc
lookup-engine_map storage index (id ∷ ids) k {e} h = ground (
  arith,
  lookup-insert id k (engine_of storage index id) (engine_map storage index ids),
  lookup-engine_map storage index ids k {e = e},
)

lookup-storage_map :
    (storage : Links) (ids : List ℕ) (k : ℕ) {s : Storage}
    → lookup k (storage_map storage ids) ≡ some s
    → s.source_engine_nodes ≡ links_of k storage.backward
unfolding storage_map lookup
lookup-storage_map storage [] k h = cc
lookup-storage_map storage (id ∷ ids) k {s} h = ground (
  arith,
  lookup-insert id k (record { node_id = id; source_engine_nodes = links_of id storage.backward })
      (storage_map storage ids),
  lookup-storage_map storage ids k {s = s},
)

lookup-sequencers_of :
    (all : List ℕ) (replicas : ℕ) (index : Links) (i : ℕ) (ids : List ℕ) (k : ℕ)
    {m : List (ℕ × Sequencer)} {s : Sequencer}
    → sequencers_of all replicas index i ids ≡ ok m
    → lookup k m ≡ some s
    → s.index_engine_nodes ≡ links_of k index.forward
unfolding sequencers_of lookup
lookup-sequencers_of all replicas index i [] k {m} {s} e h =
    none_case (subst (λ n. lookup k n ≡ some s) (sym (ok-injective e)) h)
  where
    none_case : lookup k [] ≡ some s → s.index_engine_nodes ≡ links_of k index.forward
    none_case p = cc
lookup-sequencers_of all replicas index i (id ∷ ids) k {m} {s} e h =
    let (reps, _, e₁) = >>=-eq-ok (replicas_of all i 1 (replicas - 1)) _ e in
    let (rest, e₂, e₃) = >>=-eq-ok (sequencers_of all replicas index (i + 1) ids) _ e₁ in
    let node : Sequencer = record {
      node_id = id;
      replica_sequencer_nodes = reps;
      index_engine_nodes = links_of id index.forward;
      next_index_engine_node = 0;
    } in
    ground (
      arith,
      ok-injective e₃,
      lookup-insert id k node rest,
      lookup-sequencers_of all replicas index (i + 1) ids k {m = rest} {s = s} e₂,
    )

-- What a construction that succeeds went through.
record IsMade (p : ViewProto) (v : View) : Type 0 where
  index : Links
  storage : Links
  sequencers : List (ℕ × Sequencer)
  index_read :
      read_plan p.index_plan p.index_replicas 0 (map u16 p.sequencer_nodes) no_links ≡ ok index
  storage_read :
      read_plan p.storage_plan p.userlog_replicas 0 (map u16 p.engine_nodes) no_links ≡ ok storage
  sequencers_made :
      sequencers_of
        (map u16 p.sequencer_nodes)
        p.metalog_replicas
        index
        0
        (map u16 p.sequencer_nodes)
      ≡ ok sequencers
  assembled : assemble p index storage sequencers ≡ v

view_of_proto-IsMade : (p : ViewProto) {v : View} → view_of_proto p ≡ ok v → IsMade p v
unfolding view_of_proto
view_of_proto-IsMade p made =
    let (index, i, r₁) = >>=-eq-ok _ _ made in
    let (storage, s, r₂) = >>=-eq-ok _ _ r₁ in
    let (sequencers, q, r₃) = >>=-eq-ok _ _ r₂ in
    record {
      index = index;
      storage = storage;
      sequencers = sequencers;
      index_read = i;
      storage_read = s;
      sequencers_made = q;
      assembled = ok-injective r₃;
    }

pub view_of_proto-id : (p : ViewProto) {v : View} → view_of_proto p ≡ ok v → v.id ≡ u16 p.view_id
view_of_proto-id p h = sym (ap (λ (w : View). w.id) (view_of_proto-IsMade p h).assembled)

pub view_of_proto-sequencers :
    (p : ViewProto) {v : View}
    → view_of_proto p ≡ ok v
    → v.sequencer_node_ids ≡ map u16 p.sequencer_nodes
view_of_proto-sequencers p h =
    sym (ap (λ (w : View). w.sequencer_node_ids) (view_of_proto-IsMade p h).assembled)

module _ (p : ViewProto) {v : View} (made : view_of_proto p ≡ ok v) (e : ℕ) where
  -- In a view that was constructed, a storage node lists an engine among its sources exactly when
  -- the engine lists it among its storage nodes.
  pub storage_agrees :
      (s : ℕ) {engine : Engine} {storage : Storage}
      → lookup e v.engine_nodes ≡ some engine
      → lookup s v.storage_nodes ≡ some storage
      → is_source_engine_node storage e ≡ elem s engine.storage_nodes
  unfolding is_source_engine_node engine_of
  storage_agrees s {engine} {storage} he hs =
      let m = view_of_proto-IsMade p made in
      let he' = subst (λ w. lookup e w.engine_nodes ≡ some engine) (sym m.assembled) he in
      let hs' = subst (λ w. lookup s w.storage_nodes ≡ some storage) (sym m.assembled) hs in
      ground (
        arith,
        lookup-engine_map m.storage m.index (map u16 p.engine_nodes) e he',
        lookup-storage_map m.storage (map u16 p.storage_nodes) s hs',
        read_plan_agrees p.storage_plan p.userlog_replicas (map u16 p.engine_nodes) m.storage_read e
            s,
      )

  -- In a view that was constructed, an engine has an index for a sequencer exactly when the
  -- sequencer lists it among its index engines.
  pub index_agrees :
      (q : ℕ) {engine : Engine} {sequencer : Sequencer}
      → lookup e v.engine_nodes ≡ some engine
      → lookup q v.sequencer_nodes ≡ some sequencer
      → has_index_for engine q ≡ elem e sequencer.index_engine_nodes
  unfolding has_index_for engine_of
  index_agrees q {engine} {sequencer} he hq =
      let m = view_of_proto-IsMade p made in
      let he' = subst (λ w. lookup e w.engine_nodes ≡ some engine) (sym m.assembled) he in
      let hq' = subst (λ w. lookup q w.sequencer_nodes ≡ some sequencer) (sym m.assembled) hq in
      ground (
        arith,
        lookup-engine_map m.storage m.index (map u16 p.engine_nodes) e he',
        lookup-sequencers_of _ _ _ _ _ q m.sequencers_made hq',
        read_plan_agrees p.index_plan p.index_replicas (map u16 p.sequencer_nodes) m.index_read q e,
      )
