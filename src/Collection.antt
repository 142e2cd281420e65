-- ===== src/Collection.antt =====
-- src/log/log_space_base.h, class `LogSpaceCollection`: the log spaces of a node by identifier, and
-- which of them are active or finalized. A set of identifiers is a map to the unit type. An iteration
-- is the list of the identifiers and log spaces that its callback gets, in order.
mod Tests
use boki.Base.{
  ℕ, List, [], ◌∷◌, Option, none, some, Bool, true, false, ◌&&◌, not, ◌≡◌, refl, sym, ap, ◌∙◌, ltb,
  ◌==◌, ==_refl, if◌then◌else◌, Map, lookup, lookup-insert, contains, contains-insert,
  contains-erase, insert, erase, lookup-erase, Result, ok, ◌>>=◌, expect, map, arith,
}
use boki.Bits.{high_half32, join_two16}

pub record LogSpaceCollection (T : Type 0) : Type 0 where
  pub active_log_spaces : Map (Unit {0})
  pub finalized_log_spaces : Map (Unit {0})
  pub log_spaces : Map T

-- From `lower_bound` of the view's first identifier to the first one of a later view.
unfoldable pub of_view : ℕ → Map (Unit {0}) → Map (Unit {0})
of_view view_id [] = []
of_view view_id ((identifier, u) ∷ ids) =
    let rest = of_view view_id ids in
    if ltb identifier (join_two16 view_id 0)
    then rest
    else if ltb view_id (high_half32 identifier)
    then []
    else (identifier, u) ∷ rest

inserted :
    (identifier : ℕ) (ids : Map (Unit {0})) → contains identifier (insert identifier tt ids) ≡ true
inserted identifier ids =
    contains-insert identifier identifier tt ids
    ∙ ap (λ b. if b then true else contains identifier ids) (==_refl identifier)

module _ {T : Type 0} where
  abbrev pub empty_collection : LogSpaceCollection T
  empty_collection = record { active_log_spaces = []; finalized_log_spaces = []; log_spaces = [] }

  unfoldable pub get_log_space : ℕ → LogSpaceCollection T → Option T
  get_log_space identifier c = lookup identifier c.log_spaces

  unfoldable pub get_log_space_checked : ℕ → LogSpaceCollection T → Result T
  get_log_space_checked identifier c = expect (lookup identifier c.log_spaces)

  -- The argument is the log space with its identifier.
  unfoldable pub install_log_space : ℕ → T → LogSpaceCollection T → LogSpaceCollection T
  install_log_space identifier log_space c = record c {
    active_log_spaces = insert identifier tt c.active_log_spaces;
    log_spaces = insert identifier log_space c.log_spaces;
  }

  unfoldable pub finalize_log_space : ℕ → LogSpaceCollection T → Bool × LogSpaceCollection T
  finalize_log_space identifier c =
      if not (contains identifier c.active_log_spaces) then (false, c) else (
        true,
        record c {
          active_log_spaces = erase identifier c.active_log_spaces;
          finalized_log_spaces = insert identifier tt c.finalized_log_spaces;
        },
      )

  unfoldable pub remove_log_space : ℕ → LogSpaceCollection T → Bool × LogSpaceCollection T
  remove_log_space identifier c =
      if not (contains identifier c.finalized_log_spaces) then (false, c) else (
        true,
        record c {
          finalized_log_spaces = erase identifier c.finalized_log_spaces;
          log_spaces = erase identifier c.log_spaces;
        },
      )

  -- `at` of each identifier of a set.
  unfoldable pub log_spaces_at : Map (Unit {0}) → Map T → Result (List (ℕ × T))
  log_spaces_at [] m = ok []
  log_spaces_at ((identifier, u) ∷ ids) m = do
    log_space ← expect (lookup identifier m)
    rest ← log_spaces_at ids m
    ok ((identifier, log_space) ∷ rest)

  -- `ForEachActiveLogSpace` with a view, and the two iterations without.
  unfoldable pub active_log_spaces_of : ℕ → LogSpaceCollection T → Result (List (ℕ × T))
  active_log_spaces_of view_id c = log_spaces_at (of_view view_id c.active_log_spaces) c.log_spaces

  unfoldable pub each_active_log_space : LogSpaceCollection T → Result (List (ℕ × T))
  each_active_log_space c = log_spaces_at c.active_log_spaces c.log_spaces

  unfoldable pub each_finalized_log_space : LogSpaceCollection T → Result (List (ℕ × T))
  each_finalized_log_space c = log_spaces_at c.finalized_log_spaces c.log_spaces

  -- A finalized log space is found until it is removed and not after, whatever the collection holds;
  -- a log space that is active and not finalized cannot be removed.
  pub life_cycle :
      (identifier : ℕ) (log_space : T) (c : LogSpaceCollection T)
      → contains identifier c.finalized_log_spaces ≡ false
      → (c₁ : LogSpaceCollection T) × (finalize_log_space identifier
            (install_log_space identifier log_space c)
          ≡ (true, c₁))
        × (get_log_space identifier c₁ ≡ some log_space)
        × (c₂ : LogSpaceCollection T) × (remove_log_space identifier c₁ ≡ (true, c₂))
        × (get_log_space identifier c₂ ≡ none)
        × (remove_log_space identifier (install_log_space identifier log_space c)
            ≡ (false, install_log_space identifier log_space c))
  unfolding get_log_space install_log_space finalize_log_space remove_log_space
  life_cycle identifier log_space c h =
      let active = inserted identifier c.active_log_spaces in
      let final = inserted identifier c.finalized_log_spaces in
      (
        record {
          active_log_spaces = erase identifier (insert identifier tt c.active_log_spaces);
          finalized_log_spaces = insert identifier tt c.finalized_log_spaces;
          log_spaces = insert identifier log_space c.log_spaces;
        },
        rw active refl,
        lookup-insert identifier identifier log_space c.log_spaces
            ∙ ap (λ b. if b then some log_space else lookup identifier c.log_spaces)
                (==_refl identifier),
        record {
          active_log_spaces = erase identifier (insert identifier tt c.active_log_spaces);
          finalized_log_spaces = erase identifier (insert identifier tt c.finalized_log_spaces);
          log_spaces = erase identifier (insert identifier log_space c.log_spaces);
        },
        rw final refl,
        lookup-erase identifier identifier (insert identifier log_space c.log_spaces)
            ∙ ap
                (λ b.
                  if b then none else lookup identifier (insert identifier log_space c.log_spaces))
                (==_refl identifier),
        rw h refl,
      )
