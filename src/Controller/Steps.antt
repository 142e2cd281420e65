-- ===== src/Controller/Steps.antt =====
-- What each handler of the controller keeps: nodes that come and go, commands, and the responses of
-- sequencers.
use boki.Base.{
  ℕ, suc, ◌<◌, List, [], ◌∷◌, ◌++◌, Option, none, some, Bool, true, false, ◌≡◌, inl, inr, refl, sym,
  ap, subst, length, if◌then◌else◌, ◌==◌, ok, panic, ◌>>=◌, Map, >>=-eq-ok, ok-injective, expect,
  arith, last?,
}
use boki.Proto.{FrozenSequencerProto, FinalizedViewProto}
use boki.Controller.{
  Controller, State, created, normal, reconfiguring, frozen, Request, finalize, NodeType,
  sequencer_node, engine_node, storage_node, Shuffles, has_nodes, reconfig_view, on_node_online,
  on_node_offline, start_command_handler, start_created, started, reconfig_command_handler,
  reconfig_command, reconfig_normal, take_response, on_freeze_znode_created, plan_from,
  chosen_sequencers, ids_of,
}
use boki.Controller.Seal.{OngoingSeal, check_all_sealed}
use boki.Controller.Invariant.{
  finalizing, finalizing-append, IsBusy, Phase, IsSound, reconfig_view-IsSound,
}

-- Which nodes are online, and how user logs are hashed, does not matter.
nodes-IsSound :
    (c : Controller) (sequencers engines storages : Map (Unit {0})) (seed : ℕ) (tokens : List ℕ)
    → IsSound c
    → IsSound (record c {
      sequencer_nodes = sequencers;
      engine_nodes = engines;
      storage_nodes = storages;
      log_space_hash_seed = seed;
      log_space_hash_tokens = tokens;
    })
unfolding has_nodes
nodes-IsSound c sequencers engines storages seed tokens sound = record {
  phase = go c.state sound.phase;
  numbered = sound.numbered;
}
  where
    go :
        (s : State)
        → Phase s c
        → Phase s (record c {
          sequencer_nodes = sequencers;
          engine_nodes = engines;
          storage_nodes = storages;
          log_space_hash_seed = seed;
          log_space_hash_tokens = tokens;
        })
    go created (q, none_yet) = (
      record { no_pending = q.no_pending; no_seal = q.no_seal; no_finalize = q.no_finalize },
      none_yet,
    )
    go normal (q, some_view) = (
      record { no_pending = q.no_pending; no_seal = q.no_seal; no_finalize = q.no_finalize },
      some_view,
    )
    go reconfiguring (b, some_view) = (
      record { target = b.target; pending = b.pending; enough = b.enough; stage = b.stage },
      some_view,
    )
    go frozen p = absurd p

pub on_node_online-IsSound :
    (t : NodeType) (id : ℕ) (c : Controller) → IsSound c → IsSound (on_node_online t id c)
unfolding on_node_online
on_node_online-IsSound sequencer_node id c sound = nodes-IsSound c _ _ _ _ _ sound
on_node_online-IsSound engine_node id c sound = nodes-IsSound c _ _ _ _ _ sound
on_node_online-IsSound storage_node id c sound = nodes-IsSound c _ _ _ _ _ sound

pub on_node_offline-IsSound :
    (t : NodeType) (id : ℕ) (c : Controller) → IsSound c → IsSound (on_node_offline t id c)
unfolding on_node_offline
on_node_offline-IsSound sequencer_node id c sound = nodes-IsSound c _ _ _ _ _ sound
on_node_offline-IsSound engine_node id c sound = nodes-IsSound c _ _ _ _ _ sound
on_node_offline-IsSound storage_node id c sound = nodes-IsSound c _ _ _ _ _ sound

pub start_command_handler-IsSound :
    (seed num_tokens : ℕ) (shuffle : List ℕ → List ℕ) (c : Controller) {c' : Controller}
    → start_command_handler seed num_tokens shuffle c ≡ ok c'
    → IsSound c
    → IsSound c'
unfolding start_command_handler start_created started
start_command_handler-IsSound seed num_tokens shuffle c {c'} h sound = go c.state h
  where
    begin :
        (invalid : Bool)
        → (if invalid
            then panic
            else (plan_from (ids_of c.sequencer_nodes) c.num_phylogs 0 num_tokens >>= λ tokens.
                reconfig_view
                  (record {
                    log_space_hash_seed = seed;
                    log_space_hash_tokens = shuffle tokens;
                    num_phylogs = c.num_phylogs;
                    sequencer_nodes = ids_of c.sequencer_nodes;
                    engine_nodes = ids_of c.engine_nodes;
                    storage_nodes = ids_of c.storage_nodes;
                  })
                  (record c {
                    log_space_hash_seed = seed;
                    log_space_hash_tokens = shuffle tokens;
                  })))
          ≡ ok c'
        → IsSound c'
    begin true e = cc
    begin false e =
        let (tokens, _, e₁) =
          >>=-eq-ok (plan_from (ids_of c.sequencer_nodes) c.num_phylogs 0 num_tokens) _ e in
        reconfig_view-IsSound _ _ e₁ (nodes-IsSound c _ _ _ _ _ sound)

    go : (s : State) → started s seed num_tokens shuffle c ≡ ok c' → IsSound c'
    go created e = begin _ e
    go normal e = subst IsSound (ok-injective e) sound
    go reconfiguring e = subst IsSound (ok-injective e) sound
    go frozen e = subst IsSound (ok-injective e) sound

pub reconfig_command_handler-IsSound :
    (s : Shuffles) (given : Option (List ℕ)) (c : Controller) {c' : Controller}
    → reconfig_command_handler s given c ≡ ok c'
    → IsSound c
    → IsSound c'
unfolding reconfig_command_handler reconfig_command reconfig_normal
reconfig_command_handler-IsSound s given c {c'} h sound = go c.state h
  where
    go : (state : State) → reconfig_command state s given c ≡ ok c' → IsSound c'
    go normal e =
        let (view, _, e₁) = >>=-eq-ok (expect (last? c.views)) _ e in
        let (ids, _, e₂) =
          >>=-eq-ok (chosen_sequencers given (s.sequencers view.sequencer_node_ids)) _ e₁ in
        let (tokens, _, e₃) =
          >>=-eq-ok (plan_from ids view.num_phylogs 0 (length view.log_space_hash_tokens)) _ e₂ in
        reconfig_view-IsSound _ c e₃ sound
    go created e = subst IsSound (ok-injective e) sound
    go reconfiguring e = subst IsSound (ok-injective e) sound
    go frozen e = subst IsSound (ok-injective e) sound

-- A seal is under way only in a reconfiguration that has published no finalization.
pub record IsSealing (c : Controller) : Type 0 where
  pub in_state : c.state ≡ reconfiguring
  pub busy : IsBusy c
  pub some_view : 0 < length c.views
  pub no_finalize : finalizing c.requests ≡ 0

IsSound-IsSealing :
    (c : Controller) (seal : OngoingSeal) → c.ongoing_seal ≡ some seal → IsSound c → IsSealing c
IsSound-IsSealing c seal e sound = go c.state refl sound.phase
  where
    go : (s : State) → c.state ≡ s → Phase s c → IsSealing c
    go created at (q, _) = cc (e, q.no_seal)
    go normal at (q, _) = cc (e, q.no_seal)
    go reconfiguring at (b, some_view) = elim b.stage [
      | inl (_, _, none_out) ↦ record {
        in_state = at;
        busy = b;
        some_view = some_view;
        no_finalize = none_out;
      }
      | inr (no_seal, _) ↦ cc (e, no_seal)
    ]
    go frozen at p = absurd p

-- A response either joins the seal or turns it into a finalization.
pub on_freeze_znode_created-IsSound :
    (p : FrozenSequencerProto) (c : Controller) → IsSound c → IsSound (on_freeze_znode_created p c)
unfolding on_freeze_znode_created take_response has_nodes
on_freeze_znode_created-IsSound p c sound = go c.ongoing_seal refl
  where
    taken :
        (seal : OngoingSeal) (o : Option FinalizedViewProto)
        → IsSealing c
        → IsSound (elim o as (λ _. Controller) [
          | none ↦ record c { ongoing_seal = some seal }
          | some f ↦ record c { ongoing_seal = none; requests = c.requests ++ finalize f ∷ [] }
        ])
    taken seal none s = record {
      phase =
          subst (λ t. Phase t (record c { ongoing_seal = some seal })) (sym s.in_state)
            (
              record {
                target = s.busy.target;
                pending = s.busy.pending;
                enough = s.busy.enough;
                stage = inl (seal, refl, s.no_finalize);
              },
              s.some_view,
            );
      numbered = sound.numbered;
    }
    taken seal (some f) s = record {
      phase =
          subst
            (λ t.
              Phase t (record c { ongoing_seal = none; requests = c.requests ++ finalize f ∷ [] }))
            (sym s.in_state)
            (
              record {
                target = s.busy.target;
                pending = s.busy.pending;
                enough = s.busy.enough;
                stage = inr (
                  refl,
                  omega (arith, finalizing-append c.requests (finalize f ∷ []), s.no_finalize),
                );
              },
              s.some_view,
            );
      numbered = sound.numbered;
    }

    same :
        (seal : OngoingSeal) (b : Bool)
        → IsSealing c
        → IsSound (if b then take_response seal p c else c)
    same seal true s = taken _ (check_all_sealed _) s
    same seal false s = sound

    go :
        (o : Option OngoingSeal)
        → c.ongoing_seal ≡ o
        → IsSound (elim o as (λ _. Controller) [
          | none ↦ c
          | some seal ↦ if p.view_id == seal.view.id then take_response seal p c else c
        ])
    go none e = sound
    go (some seal) e = same seal (p.view_id == seal.view.id) (IsSound-IsSealing c seal e sound)

-- What the answer to a finalization finds: a configuration with enough nodes.
pub record IsFinalizing (rest : List Request) (c : Controller) : Type 0 where
  pub busy : IsBusy c
  pub no_seal : c.ongoing_seal ≡ none
  pub last_one : finalizing rest ≡ 0

pub IsSound-IsFinalizing :
    (f : FinalizedViewProto) (rest : List Request) (c : Controller)
    → c.requests ≡ finalize f ∷ rest
    → IsSound c
    → IsFinalizing rest c
IsSound-IsFinalizing f rest c e sound = go c.state sound.phase
  where
    out : finalizing c.requests ≡ suc (finalizing rest)
    out = ap finalizing e

    go : (s : State) → Phase s c → IsFinalizing rest c
    go created (q, _) = absurd (omega (arith, out, q.no_finalize))
    go normal (q, _) = absurd (omega (arith, out, q.no_finalize))
    go reconfiguring (b, some_view) = elim b.stage [
      | inl (_, _, none_out) ↦ absurd (omega (arith, out, none_out))
      | inr (no_seal, one) ↦ record {
        busy = b;
        no_seal = no_seal;
        last_one = omega (arith, out, one);
      }
    ]
    go frozen p = absurd p

-- An answer that changes nothing but the requests.
pub answered-IsSound :
    (c : Controller) (rest : List Request)
    → finalizing c.requests ≡ finalizing rest
    → IsSound c
    → IsSound (record c { requests = rest })
unfolding has_nodes
answered-IsSound c rest same sound = record {
  phase = go c.state sound.phase;
  numbered = sound.numbered;
}
  where
    go : (s : State) → Phase s c → Phase s (record c { requests = rest })
    go created (q, none_yet) = (
      record {
        no_pending = q.no_pending;
        no_seal = q.no_seal;
        no_finalize = omega (arith, same, q.no_finalize);
      },
      none_yet,
    )
    go normal (q, some_view) = (
      record {
        no_pending = q.no_pending;
        no_seal = q.no_seal;
        no_finalize = omega (arith, same, q.no_finalize);
      },
      some_view,
    )
    go reconfiguring (b, some_view) = (
      record {
        target = b.target;
        pending = b.pending;
        enough = b.enough;
        stage = elim b.stage [
          | inl (seal, e, n) ↦ inl (seal, e, omega (arith, same, n))
          | inr (e, n) ↦ inr (e, omega (arith, same, n))
        ];
      },
      some_view,
    )
    go frozen p = absurd p
