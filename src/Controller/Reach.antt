-- ===== src/Controller/Reach.antt =====
-- The states that the controller reaches by nodes that come and go, commands, responses of sequencers
-- and answers of ZooKeeper.
use boki.Base.{
  ℕ, ◌*◌, List, [], ◌∷◌, ◌++◌, Option, none, some, Bool, ◌≡◌, refl, sym, ap, ◌∙◌, subst, length,
  map, if◌then◌else◌, ok, >>=-eq-ok, ok-injective, expect, expect-eq-ok, arith, some-injective,
}
use boki.Bits.{u16}
use boki.Proto.{FrozenSequencerProto, FinalizedViewProto}
use boki.View.{View, view_of_proto}
use boki.Controller.{
  Controller, controller, normal, frozen, Configuration, Request, new, freeze, finalize, NodeType,
  Shuffles, create_view, install_new_view, reconfig_in, has_nodes, reconfig_view, on_node_online,
  on_node_offline, start_command_handler, reconfig_command_handler, on_freeze_znode_created,
  on_finalize_published, answer, plan_from,
}
use boki.View.Converse.{view_of_proto-id, view_of_proto-sequencers}
use boki.Controller.Steps.{
  on_node_online-IsSound, on_node_offline-IsSound, start_command_handler-IsSound,
  reconfig_command_handler-IsSound, on_freeze_znode_created-IsSound, IsSound-IsFinalizing,
  answered-IsSound,
}
use boki.Controller.Invariant.{finalizing, Phase, IsNumbered, IsSound, create_view-IsSound}

pub data Step (c : Controller) : Controller → Type 0 where
  online : (t : NodeType) (id : ℕ) → Step c (on_node_online t id c)
  offline : (t : NodeType) (id : ℕ) → Step c (on_node_offline t id c)
  start :
      (seed num_tokens : ℕ) (shuffle : List ℕ → List ℕ) {c' : Controller}
      → start_command_handler seed num_tokens shuffle c ≡ ok c'
      → Step c c'
  reconfig :
      (s : Shuffles) (given : Option (List ℕ)) {c' : Controller}
      → reconfig_command_handler s given c ≡ ok c'
      → Step c c'
  respond : (p : FrozenSequencerProto) → Step c (on_freeze_znode_created p c)
  answered : {c' : Controller} → answer c.requests c ≡ ok c' → Step c c'

pub data Reach (c : Controller) : Controller → Type 0 where
  here : Reach c c
  next : {d e : Controller} → Reach c d → Step d e → Reach c e

-- What a view that is created looks like.
pub record Created (g : Configuration) (c c' : Controller) : Type 0 where
  pub view : View
  pub views : c'.views ≡ c.views ++ view ∷ []
  pub id : view.id ≡ u16 (length c.views)
  pub sequencers : view.sequencer_node_ids ≡ map u16 g.sequencer_nodes
  pub opened : c'.state ≡ normal

create_view-Created :
    (g : Configuration) (c : Controller) {c' : Controller}
    → create_view g c ≡ ok c'
    → Created g c c'
unfolding create_view install_new_view
create_view-Created g c h =
    let (storage_plan, _, h₁) =
      >>=-eq-ok
        (plan_from g.storage_nodes (length g.storage_nodes) 0
          (length g.engine_nodes * c.userlog_replicas))
        _ h in
    let (index_plan, _, h₂) =
      >>=-eq-ok
        (plan_from g.engine_nodes (length g.engine_nodes) 0
          (length g.sequencer_nodes * c.index_replicas))
        _ h₁ in
    let (v, made, h₃) = >>=-eq-ok (view_of_proto _) _ h₂ in
    subst (Created g c) (ok-injective h₃) (record {
      view = v;
      views = refl;
      id = view_of_proto-id _ made ∙ omega arith;
      sequencers = view_of_proto-sequencers _ made;
      opened = refl;
    })

-- The answer to a finalization opens a view at once.
published-Created :
    (f : FinalizedViewProto) (rest : List Request) (c : Controller) {c' : Controller}
    → c.requests ≡ finalize f ∷ rest
    → answer c.requests c ≡ ok c'
    → IsSound c
    → (g : Configuration) × (c.pending_reconfig ≡ some g) × IsSound c' × Created g c c'
unfolding answer on_finalize_published reconfig_view reconfig_in has_nodes
published-Created f rest c {c'} e h sound =
    let s = IsSound-IsFinalizing f rest c e sound in
    let g = s.busy.target in
    let h₁ = subst (λ r. answer r c ≡ ok c') e h in
    let (g', found, h₂) = >>=-eq-ok (expect c.pending_reconfig) _ h₁ in
    let same : g' ≡ g = some-injective (sym (expect-eq-ok _ found) ∙ s.busy.pending) in
    let h₃ =
      subst
        (λ x.
          reconfig_view x (record c { requests = rest; state = frozen; pending_reconfig = none })
          ≡ ok c')
        same h₂ in
    let h₄ : create_view g (record c { requests = rest; state = frozen; pending_reconfig = none })
        ≡ ok c' =
      subst
        (λ (b : Bool).
          (if b
            then create_view g
                (record c { requests = rest; state = frozen; pending_reconfig = none })
            else ok (record c { requests = rest; state = frozen; pending_reconfig = none }))
          ≡ ok c')
        s.busy.enough h₃ in
    (
      g,
      s.busy.pending,
      (create_view-IsSound g _ h₄
          (record { no_pending = refl; no_seal = s.no_seal; no_finalize = s.last_one })
          sound.numbered).0,
      (let made = create_view-Created g _ h₄ in
          record {
            view = made.view;
            views = made.views;
            id = made.id;
            sequencers = made.sequencers;
            opened = made.opened;
          }),
    )

Step-IsSound : {c d : Controller} → Step c d → IsSound c → IsSound d
unfolding answer
Step-IsSound (online t id) s = on_node_online-IsSound t id _ s
Step-IsSound (offline t id) s = on_node_offline-IsSound t id _ s
Step-IsSound (start seed num_tokens shuffle h) s =
    start_command_handler-IsSound seed num_tokens shuffle _ h s
Step-IsSound (reconfig shuffles given h) s = reconfig_command_handler-IsSound shuffles given _ h s
Step-IsSound (respond p) s = on_freeze_znode_created-IsSound p _ s
Step-IsSound {c} {d} (answered h) s = go c.requests refl h
  where
    go : (rs : List Request) → c.requests ≡ rs → answer rs c ≡ ok d → IsSound d
    go [] e h = subst IsSound (ok-injective h) s
    go (new p ∷ rest) e h =
        subst IsSound (ok-injective h) (answered-IsSound c rest (ap finalizing e) s)
    go (freeze v ∷ rest) e h =
        subst IsSound (ok-injective h) (answered-IsSound c rest (ap finalizing e) s)
    go (finalize f ∷ rest) e h =
        (published-Created f rest c e (subst (λ r. answer r c ≡ ok d) (sym e) h) s).2

Reach-IsSound : {c d : Controller} → Reach c d → IsSound c → IsSound d
Reach-IsSound here s = s
Reach-IsSound (next r st) s = Step-IsSound st (Reach-IsSound r s)

new-IsSound : (m u i n : ℕ) → IsSound (controller m u i n)
new-IsSound m u i n = record {
  phase = (record { no_pending = refl; no_seal = refl; no_finalize = refl }, refl);
  numbered = λ j v e. cc;
}

-- In every state that a new controller reaches, the views carry their positions as their ids and the
-- controller is in one of three phases: created, with no view and nothing under way; normal, with a
-- view and nothing under way; or reconfiguring, with a view, a configuration that has nodes enough,
-- and either a seal or one finalization that is not answered, not both. It is never frozen.
pub reached_is_sound :
    (m u i n : ℕ) {c : Controller}
    → Reach (controller m u i n) c
    → IsNumbered c.views × Phase c.state c
reached_is_sound m u i n r = let s = Reach-IsSound r (new-IsSound m u i n) in (s.numbered, s.phase)

-- In every state that a new controller reaches, an answer to a finalization that is taken without a
-- panic finds a configuration pending, adds one view, with the next id and the sequencers of that
-- configuration, and leaves the controller in the normal state.
pub finalization_opens_view :
    (m u i n : ℕ) (f : FinalizedViewProto) (rest : List Request) {c c' : Controller}
    → Reach (controller m u i n) c
    → c.requests ≡ finalize f ∷ rest
    → answer c.requests c ≡ ok c'
    → (g : Configuration) × (c.pending_reconfig ≡ some g) × Created g c c'
finalization_opens_view m u i n f rest r e h =
    let (g, pending, _, made) =
      published-Created f rest _ e h (Reach-IsSound r (new-IsSound m u i n)) in
    (g, pending, made)
