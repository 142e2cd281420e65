-- ===== src/Sequencer/Tail.antt =====
-- The tail of the metalog that a backup sends when its view is frozen.
use boki.Base.{
  ℕ, zero, suc, ◌+◌, ◌-◌, ◌≤◌, ◌<◌, min, List, [], ◌∷◌, some, ◌≡◌, refl, ap, ◌∙◌, subst, get_elem?,
  All, ok, lt→ltb, >>=-eq-ok, ok-injective, arith,
}
use boki.Proto.{MetaLogProto, MetaLogsProto}
use boki.View.{View}
use boki.LogSpace.{
  LogSpaceBase, identifier, get_meta_log, provide_all, no_hooks, freeze, log_space_base, full_mode,
}
use boki.LogSpace.Agreement.{Issued, IsEntry, Agrees, fresh-Agrees, provide_all-Agrees}
use boki.Primary.{meta_log_backup}
use boki.Controller.Majority.{ReachesBack}
use boki.Sequencer.{read_meta_logs, tail_of}

-- The metalogs that the sequencer issues, `n` of them from `pos` on.
abbrev pub issued_from : Issued → ℕ → ℕ → List MetaLogProto
issued_from issued pos zero = []
issued_from issued pos (suc n) = issued.at pos ∷ issued_from issued (pos + 1) n

module _ (issued : Issued) where
  read_meta_logs-issued_from :
      {lo : ℕ} (b : LogSpaceBase) (pos n : ℕ)
      → Agrees issued lo b
      → pos + n ≤ b.metalog_position
      → read_meta_logs b pos n ≡ ok (issued_from issued pos n)
  unfolding read_meta_logs get_meta_log
  read_meta_logs-issued_from b pos zero a h = refl
  read_meta_logs-issued_from b pos (suc n) a h =
      rw (lt→ltb pos b.metalog_position (omega (arith, h))) (
        rw (a.held pos (omega (arith, h)))
          (rw (read_meta_logs-issued_from b (pos + 1) n a (omega (arith, h))) refl))

  get_elem?-issued_from :
      (pos n i : ℕ) → i < n → get_elem? (issued_from issued pos n) i ≡ some (issued.at (pos + i))
  get_elem?-issued_from pos zero i h = absurd (omega (arith, h))
  get_elem?-issued_from pos (suc n) zero h = ap (λ k. some (issued.at k)) (omega arith)
  get_elem?-issued_from pos (suc n) (suc i) h =
      get_elem?-issued_from (pos + 1) n i (omega (arith, h))
      ∙ ap (λ k. some (issued.at k)) (omega arith)

  meta_log_backup-Agrees :
      (view : View) (id : ℕ) {b : LogSpaceBase}
      → meta_log_backup view id ≡ ok b
      → Agrees issued (suc b.metalog_position) b
  unfolding meta_log_backup
  meta_log_backup-Agrees view id h =
      let (b₀, made, rest) = >>=-eq-ok (log_space_base full_mode view id) _ h in
      let a = fresh-Agrees issued view id made in
      subst (λ x. Agrees issued (suc x.metalog_position) x) (ok-injective rest)
        (record {
          full = a.full;
          counted = a.counted;
          held = a.held;
          pending = a.pending;
          sorted = a.sorted;
        })

  -- A new backup that has got issued metalogs, in any order, sends when it is frozen the last of those
  -- up to its position, as many as asked for if there are so many, and without a panic. If at least
  -- one is asked for, a backup that has any sends the one before its position.
  pub frozen_tail_is_last :
      (num_entries : ℕ) (view : View) (id : ℕ) (ms : List MetaLogProto) {b : LogSpaceBase}
      {r : LogSpaceBase × Unit {0}}
      → meta_log_backup view id ≡ ok b
      → All (λ m. IsEntry issued m.metalog_seqnum m) ms
      → provide_all no_hooks ms b tt ≡ ok r
      → (t : MetaLogsProto) × (tail_of num_entries (freeze r.0) ≡ ok t)
        × (t.logspace_id ≡ identifier r.0)
        × (t.metalogs
            ≡ issued_from issued
                (r.0.metalog_position - min num_entries r.0.metalog_position)
                (min num_entries r.0.metalog_position))
        × (0 < num_entries → 0 < r.0.metalog_position → ReachesBack r.0.metalog_position t)
  unfolding tail_of freeze
  frozen_tail_is_last num_entries view id ms {b} {r} made entries given =
      let a =
        provide_all-Agrees issued no_hooks ms b tt (meta_log_backup-Agrees view id made) entries
          given in
      let position = r.0.metalog_position in
      let start = position - min num_entries position in
      let frozen : Agrees issued (suc position) (freeze r.0) = record {
        full = a.full;
        counted = a.counted;
        held = a.held;
        pending = a.pending;
        sorted = a.sorted;
      } in
      let count : position - start ≡ min num_entries position = omega arith in
      (
        record {
          logspace_id = identifier r.0;
          metalogs = issued_from issued start (position - start);
        },
        rw (read_meta_logs-issued_from (freeze r.0) start (position - start) frozen (omega arith))
            refl,
        refl,
        ap (issued_from issued start) count,
        λ some_asked some_held. (
          position - start - 1,
          issued.at (start + (position - start - 1)),
          get_elem?-issued_from start (position - start) (position - start - 1)
              (omega (arith, some_asked, some_held)),
          ap suc (issued.numbered (start + (position - start - 1)))
              ∙ omega (arith, some_asked, some_held),
        ),
      )
