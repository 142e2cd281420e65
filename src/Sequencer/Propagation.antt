-- ===== src/Sequencer/Propagation.antt =====
-- Whom a propagated metalog reaches.
use boki.Base.{
  ℕ, zero, suc, ◌+◌, ◌<◌, List, [], ◌∷◌, some, Bool, true, false, ◌≡◌, ◌↔◌, refl, sym, ◌∙◌, subst,
  ltb, lt→ltb, ◌==◌, ==_iff, if◌then◌else◌, elem, get_elem?, Map, lookup, contains, insert,
  contains-insert, Result, ok, expect, expect-eq-ok, >>=-eq-ok, ok-injective, some-injective, arith,
}
use boki.Proto.{MetaLogProto}
use boki.View.{View, Engine, has_index_for}
use boki.Sequencer.Handlers.{targets, insert_all}

-- Nothing is lost by an insertion.
insert-keeps :
    (x k : ℕ) (m : Map (Unit {0})) → contains x m ≡ true → contains x (insert k tt m) ≡ true
insert-keeps x k m h = contains-insert k x tt m ∙ ground (arith, h)

inserted : (k : ℕ) (m : Map (Unit {0})) → contains k (insert k tt m) ≡ true
inserted k m = contains-insert k k tt m ∙ ground arith

insert_all-keeps :
    (x : ℕ) (ks : List ℕ) (m : Map (Unit {0}))
    → contains x m ≡ true
    → contains x (insert_all ks m) ≡ true
unfolding insert_all
insert_all-keeps x [] m h = h
insert_all-keeps x (k ∷ ks) m h = insert_all-keeps x ks (insert k tt m) (insert-keeps x k m h)

insert_all-contains :
    (x : ℕ) (ks : List ℕ) (m : Map (Unit {0}))
    → elem x ks ≡ true
    → contains x (insert_all ks m) ≡ true
unfolding insert_all
insert_all-contains x [] m h = cc
insert_all-contains x (k ∷ ks) m h =
    go (k == x) (==_iff k x) (insert_all-contains x ks (insert k tt m)) h
  where
    go :
        (b : Bool)
        → (b ≡ true ↔ k ≡ x)
        → (elem x ks ≡ true → contains x (insert_all ks (insert k tt m)) ≡ true)
        → (if b then true else elem x ks) ≡ true
        → contains x (insert_all ks (insert k tt m)) ≡ true
    go true same later e =
        insert_all-keeps x ks (insert k tt m)
          (subst (λ z. contains z (insert k tt m) ≡ true) (same.0 refl) (inserted k m))
    go false same later e = later e

module _ (my_node_id : ℕ) (view : View) (m : MetaLogProto) where
  -- A round of the loop, by the engine's delta.
  record Round (i id : ℕ) (ids : List ℕ) (engines storages : Map (Unit {0}))
      (r : Map (Unit {0}) × Map (Unit {0})) : Type 0 where
    node : Engine
    delta : ℕ
    found : lookup id view.engine_nodes ≡ some node
    given : get_elem? m.new_logs_proto.shard_deltas i ≡ some delta
    rest :
        (elim (ltb 0 delta) [
          | true ↦
              targets my_node_id view m
                (i + 1)
                ids
                (insert id tt engines)
                (insert_all node.storage_nodes storages)
          | false ↦
              targets my_node_id view m
                (i + 1)
                ids
                (if has_index_for node my_node_id then insert id tt engines else engines)
                storages
        ])
        ≡ ok r

  targets-Round :
      (i id : ℕ) (ids : List ℕ) (engines storages : Map (Unit {0}))
      {r : Map (Unit {0}) × Map (Unit {0})}
      → targets my_node_id view m i (id ∷ ids) engines storages ≡ ok r
      → Round i id ids engines storages r
  unfolding targets
  targets-Round i id ids engines storages h =
      let (node, found, h₁) = >>=-eq-ok (expect (lookup id view.engine_nodes)) _ h in
      let (delta, given, h₂) =
        >>=-eq-ok (expect (get_elem? m.new_logs_proto.shard_deltas i)) _ h₁ in
      record {
        node = node;
        delta = delta;
        found = expect-eq-ok _ found;
        given = expect-eq-ok _ given;
        rest = h₂;
      }

  -- Targets are only added.
  targets-keeps :
      (i : ℕ) (ids : List ℕ) (engines storages : Map (Unit {0}))
      {r : Map (Unit {0}) × Map (Unit {0})}
      → targets my_node_id view m i ids engines storages ≡ ok r
      → ((x : ℕ) → contains x engines ≡ true → contains x r.0 ≡ true)
        × ((x : ℕ) → contains x storages ≡ true → contains x r.1 ≡ true)
  unfolding targets
  targets-keeps i [] engines storages {r} h =
      subst
        (λ z.
          ((x : ℕ) → contains x engines ≡ true → contains x (z.0) ≡ true)
          × ((x : ℕ) → contains x storages ≡ true → contains x (z.1) ≡ true))
        (ok-injective h) ((λ x e. e), λ x e. e)
  targets-keeps i (id ∷ ids) engines storages {r} h =
      let round = targets-Round i id ids engines storages h in
      go round.node (ltb 0 round.delta) (has_index_for round.node my_node_id) round.rest
        (λ es ss. targets-keeps (i + 1) ids es ss {r = r})
    where
      go :
          (node : Engine) (b indexes : Bool)
          → (elim b [
            | true ↦
                targets my_node_id view m
                  (i + 1)
                  ids
                  (insert id tt engines)
                  (insert_all node.storage_nodes storages)
            | false ↦
                targets my_node_id view m
                  (i + 1)
                  ids
                  (if indexes then insert id tt engines else engines)
                  storages
          ])
            ≡ ok r
          → ((es ss : Map (Unit {0}))
              → targets my_node_id view m (i + 1) ids es ss ≡ ok r
              → ((x : ℕ) → contains x es ≡ true → contains x r.0 ≡ true)
                × ((x : ℕ) → contains x ss ≡ true → contains x r.1 ≡ true))
          → ((x : ℕ) → contains x engines ≡ true → contains x r.0 ≡ true)
            × ((x : ℕ) → contains x storages ≡ true → contains x r.1 ≡ true)
      go node true indexes h ih =
          let (es, ss) = ih (insert id tt engines) (insert_all node.storage_nodes storages) h in
          (
            (λ x e. es x (insert-keeps x id engines e)),
            λ x e. ss x (insert_all-keeps x node.storage_nodes storages e),
          )
      go node false true h ih =
          let (es, ss) = ih (insert id tt engines) storages h in
          ((λ x e. es x (insert-keeps x id engines e)), ss)
      go node false false h ih = ih engines storages h

  -- The loop goes on with some targets.
  continues :
      (node : Engine) (b indexes : Bool) (i id : ℕ) (ids : List ℕ)
      (engines storages : Map (Unit {0})) {r : Map (Unit {0}) × Map (Unit {0})}
      → (elim b [
        | true ↦
            targets my_node_id view m
              (i + 1)
              ids
              (insert id tt engines)
              (insert_all node.storage_nodes storages)
        | false ↦
            targets my_node_id view m
              (i + 1)
              ids
              (if indexes then insert id tt engines else engines)
              storages
      ])
        ≡ ok r
      → (es ss : Map (Unit {0})) × (targets my_node_id view m (i + 1) ids es ss ≡ ok r)
  continues node true indexes i id ids engines storages h =
      (insert id tt engines, insert_all node.storage_nodes storages, h)
  continues node false indexes i id ids engines storages h =
      ((if indexes then insert id tt engines else engines), storages, h)

  -- The engine and the storage nodes of a shard are among the targets.
  abbrev pub IsReached : ℕ → Map (Unit {0}) × Map (Unit {0}) → Type 0
  IsReached id r =
      (contains id r.0 ≡ true)
      × ((node : Engine) (s : ℕ)
          → lookup id view.engine_nodes ≡ some node
          → elem s node.storage_nodes ≡ true
          → contains s r.1 ≡ true)

  first-IsReached :
      (k id d : ℕ) (ids : List ℕ) (engines storages : Map (Unit {0}))
      {r : Map (Unit {0}) × Map (Unit {0})}
      → targets my_node_id view m k (id ∷ ids) engines storages ≡ ok r
      → get_elem? m.new_logs_proto.shard_deltas k ≡ some d
      → 0 < d
      → IsReached id r
  first-IsReached k id d ids engines storages {r} h at some_new =
      let round = targets-Round k id ids engines storages h in
      let new : ltb 0 round.delta ≡ true =
        lt→ltb 0 round.delta (omega (arith, some_new, some-injective (sym round.given ∙ at))) in
      let rest =
        subst
          (λ b.
            (elim b as (λ _. Result (Map (Unit {0}) × Map (Unit {0}))) [
              | true ↦
                  targets my_node_id view m (k + 1) ids (insert id tt engines)
                    (insert_all round.node.storage_nodes storages)
              | false ↦
                  targets my_node_id view m (k + 1) ids
                    (if has_index_for round.node my_node_id then insert id tt engines else engines)
                    storages
            ])
            ≡ ok r)
          new round.rest in
      let (es, ss) =
        targets-keeps (k + 1) ids (insert id tt engines)
          (insert_all round.node.storage_nodes storages) rest in
      (
        es id (inserted id engines),
        λ node s found member. ss s (
            insert_all-contains s round.node.storage_nodes storages (
              subst (λ (n : Engine). elem s n.storage_nodes ≡ true)
                (some-injective (sym found ∙ round.found)) member)),
      )

  -- When the loop that chooses who gets a metalog ends without a panic, each engine that it goes through
  -- and whose shard has new entries in the metalog is among the targets, and so is each storage node of
  -- that engine.
  pub new_entries_reach :
      (k : ℕ) (ids : List ℕ) (engines storages : Map (Unit {0}))
      {r : Map (Unit {0}) × Map (Unit {0})} (i id d : ℕ)
      → targets my_node_id view m k ids engines storages ≡ ok r
      → get_elem? ids i ≡ some id
      → get_elem? m.new_logs_proto.shard_deltas (k + i) ≡ some d
      → 0 < d
      → IsReached id r
  new_entries_reach k [] engines storages i id d h at new some_new = cc
  new_entries_reach k (e ∷ ids) engines storages {r} zero id d h at new some_new =
      subst (λ x. IsReached x r) (some-injective at)
        (first-IsReached k e d ids engines storages h
          (subst (λ j. get_elem? m.new_logs_proto.shard_deltas j ≡ some d) (omega arith) new)
          some_new)
  new_entries_reach k (e ∷ ids) engines storages {r} (suc i) id d h at new some_new =
      let round = targets-Round k e ids engines storages h in
      let (es, ss, rest) =
        continues round.node (ltb 0 round.delta) (has_index_for round.node my_node_id) k e ids
          engines storages round.rest in
      new_entries_reach (k + 1) ids es ss {r = r} i id d rest at
        (subst (λ j. get_elem? m.new_logs_proto.shard_deltas j ≡ some d) (omega arith) new) some_new
