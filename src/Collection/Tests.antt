-- ===== src/Collection/Tests.antt =====
-- A collection with log space 7, a number in place of its contents, next to a finalized one.
use boki.Base.{ℕ, [], ◌∷◌, none, some, true, false, ◌≡◌, refl, lookup, insert, contains, ok}
use boki.Bits.{join_two16, high_half32}
use boki.Collection.{
  LogSpaceCollection, get_log_space, install_log_space, finalize_log_space, remove_log_space,
  life_cycle, active_log_spaces_of, log_spaces_at, of_view,
}

abbrev old : LogSpaceCollection ℕ
old = record {
  active_log_spaces = (0x10002, tt) ∷ [];
  finalized_log_spaces = (1, tt) ∷ [];
  log_spaces = (1, 30) ∷ (0x10002, 31) ∷ [];
}

not_finalized : contains 0x20001 old.finalized_log_spaces ≡ false
unfolding contains
not_finalized = refl

life_cycle_example :
    (c₁ : LogSpaceCollection ℕ) × (finalize_log_space 0x20001 (install_log_space 0x20001 9 old)
      ≡ (true, c₁))
    × (get_log_space 0x20001 c₁ ≡ some 9)
    × (c₂ : LogSpaceCollection ℕ) × (remove_log_space 0x20001 c₁ ≡ (true, c₂))
    × (get_log_space 0x20001 c₂ ≡ none)
    × (remove_log_space 0x20001 (install_log_space 0x20001 9 old)
        ≡ (false, install_log_space 0x20001 9 old))
life_cycle_example = life_cycle 0x20001 9 old not_finalized

-- Of two active log spaces, the one of view 2.
view_two : active_log_spaces_of 2 (install_log_space 0x20001 9 old) ≡ ok ((0x20001, 9) ∷ [])
unfolding active_log_spaces_of install_log_space log_spaces_at of_view insert lookup join_two16
    high_half32
view_two = refl
