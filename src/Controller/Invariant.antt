-- ===== src/Controller/Invariant.antt =====
-- What holds of the controller between its steps: views are numbered, and a reconfiguration has one
-- seal or one finalization under way.
use boki.Base.{
  ℕ, suc, ◌+◌, ◌*◌, ◌<◌, List, [], ◌∷◌, ◌++◌, none, some, true, ◌≡◌, ◌⊎◌, inl, inr, refl, sym, ap,
  ◌∙◌, subst, length, get_elem?, length-append, if◌then◌else◌, ltb, Bool-cases, ok, >>=-eq-ok,
  ok-injective, expect, arith, last?, some-injective, get_elem?-append_left, get_elem?-append_at,
  get_elem?-lt, ltb→lt, ltb→le,
}
use boki.Bits.{u16}
use boki.Proto.{ViewProto}
use boki.View.{View, view_of_proto}
use boki.View.Converse.{view_of_proto-id}
use boki.Controller.{
  Controller, State, created, normal, reconfiguring, frozen, Configuration, Request, new, freeze,
  finalize, install_new_view, create_view, freeze_view, has_nodes, reconfig_view, reconfig_in,
  plan_from, next_view_id,
}
use boki.Controller.Seal.{OngoingSeal, new_seal}

-- The finalizations that ZooKeeper has not answered.
abbrev pub finalizing : List Request → ℕ
finalizing [] = 0
finalizing (new p ∷ rest) = finalizing rest
finalizing (freeze v ∷ rest) = finalizing rest
finalizing (finalize f ∷ rest) = suc (finalizing rest)

pub finalizing-append :
    (xs ys : List Request) → finalizing (xs ++ ys) ≡ finalizing xs + finalizing ys
finalizing-append [] ys = omega arith
finalizing-append (new p ∷ xs) ys = finalizing-append xs ys
finalizing-append (freeze v ∷ xs) ys = finalizing-append xs ys
finalizing-append (finalize f ∷ xs) ys = omega (arith, finalizing-append xs ys)

-- No reconfiguration is under way.
pub record IsQuiet (c : Controller) : Type 0 where
  pub no_pending : c.pending_reconfig ≡ none
  pub no_seal : c.ongoing_seal ≡ none
  pub no_finalize : finalizing c.requests ≡ 0

-- A reconfiguration is under way: it has a configuration with enough nodes, and either waits for
-- responses or for the answer to its finalization.
pub record IsBusy (c : Controller) : Type 0 where
  pub target : Configuration
  pub pending : c.pending_reconfig ≡ some target
  pub enough : has_nodes c target ≡ true
  pub stage :
      ((s : OngoingSeal) × (c.ongoing_seal ≡ some s) × (finalizing c.requests ≡ 0))
      ⊎ ((c.ongoing_seal ≡ none) × (finalizing c.requests ≡ 1))

abbrev pub Phase : State → Controller → Type 0
Phase created c = IsQuiet c × (c.views ≡ [])
Phase normal c = IsQuiet c × (0 < length c.views)
Phase reconfiguring c = IsBusy c × (0 < length c.views)
Phase frozen c = ⊥

abbrev pub IsNumbered : List View → Type 0
IsNumbered views = (i : ℕ) (v : View) → get_elem? views i ≡ some v → v.id ≡ u16 i

pub record IsSound (c : Controller) : Type 0 where
  pub phase : Phase c.state c
  pub numbered : IsNumbered c.views

IsNumbered-append :
    (views : List View) (v : View)
    → IsNumbered views
    → v.id ≡ u16 (length views)
    → IsNumbered (views ++ v ∷ [])
IsNumbered-append views v n e i w at = elim (Bool-cases (ltb i (length views))) [
  | inl below ↦
      n i w (sym (get_elem?-append_left views (v ∷ []) i (ltb→lt i (length views) below)) ∙ at)
  | inr above ↦
      let inside = get_elem?-lt (views ++ v ∷ []) i at in
      let here : length views ≡ i =
        omega (arith, inside, length-append views (v ∷ []), ltb→le i (length views) above) in
      ap (λ (x : View). x.id)
        (sym (some-injective (sym (get_elem?-append_at views v [] i here) ∙ at)))
      ∙ e
      ∙ ap u16 here
]

install_new_view-IsSound :
    (p : ViewProto) (c : Controller) {c' : Controller}
    → install_new_view p c ≡ ok c'
    → p.view_id ≡ next_view_id c
    → IsQuiet c
    → IsNumbered c.views
    → IsSound c' × (c'.state ≡ normal)
unfolding install_new_view
install_new_view-IsSound p c h e q n =
    let (v, made, h₁) = >>=-eq-ok (view_of_proto p) _ h in
    subst (λ c'. IsSound c' × (c'.state ≡ normal)) (ok-injective h₁)
      (
        record {
          phase = (
            record {
              no_pending = q.no_pending;
              no_seal = q.no_seal;
              no_finalize = omega (arith, finalizing-append c.requests (new p ∷ []), q.no_finalize);
            },
            omega (arith, length-append c.views (v ∷ [])),
          );
          numbered =
              IsNumbered-append c.views v n (view_of_proto-id p made ∙ ap u16 e ∙ omega arith);
        },
        refl,
      )

pub create_view-IsSound :
    (g : Configuration) (c : Controller) {c' : Controller}
    → create_view g c ≡ ok c'
    → IsQuiet c
    → IsNumbered c.views
    → IsSound c' × (c'.state ≡ normal)
unfolding create_view
create_view-IsSound g c h q n =
    let (storage_plan, _, h₁) =
      >>=-eq-ok
        (plan_from g.storage_nodes (length g.storage_nodes) 0
          (length g.engine_nodes * c.userlog_replicas))
        _ h in
    let (index_plan, _, h₂) =
      >>=-eq-ok
        (plan_from g.engine_nodes (length g.engine_nodes) 0
          (length g.sequencer_nodes * c.index_replicas))
        _ h₁ in
    install_new_view-IsSound _ c h₂ refl q n

-- From a quiet controller with a view, a reconfiguration starts.
freeze_view-IsSound :
    (g : Configuration) (v : View) (c : Controller)
    → has_nodes c g ≡ true
    → IsQuiet c
    → 0 < length c.views
    → IsNumbered c.views
    → IsSound (freeze_view v (record c { pending_reconfig = some g }))
unfolding freeze_view has_nodes
freeze_view-IsSound g v c enough q some_view n = record {
  phase = (
    record {
      target = g;
      pending = refl;
      enough = enough;
      stage = inl (
        new_seal v,
        refl,
        omega (arith, finalizing-append c.requests (freeze v.id ∷ []), q.no_finalize),
      );
    },
    some_view,
  );
  numbered = n;
}

pub reconfig_view-IsSound :
    (g : Configuration) (c : Controller) {c' : Controller}
    → reconfig_view g c ≡ ok c'
    → IsSound c
    → IsSound c'
unfolding reconfig_view
reconfig_view-IsSound g c {c'} h sound = elim (Bool-cases (has_nodes c g)) [
  | inl enough ↦
      go c.state enough sound.phase
        (subst (λ b. (if b then reconfig_in c.state g c else ok c) ≡ ok c') enough h)
  | inr few ↦
      subst IsSound
        (ok-injective (subst (λ b. (if b then reconfig_in c.state g c else ok c) ≡ ok c') few h))
        sound
]
  where
    go : (s : State) → has_nodes c g ≡ true → Phase s c → reconfig_in s g c ≡ ok c' → IsSound c'
    go created enough p e = (create_view-IsSound g c e p.0 sound.numbered).0
    go normal enough p e =
        let (v, _, e₁) = >>=-eq-ok (expect (last? c.views)) _ e in
        subst IsSound (ok-injective e₁) (freeze_view-IsSound g v c enough p.0 p.1 sound.numbered)
    go reconfiguring enough p e = subst IsSound (ok-injective e) sound
    go frozen enough p e = absurd p
