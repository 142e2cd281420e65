-- ===== src/Bits.antt =====
-- src/utils/bits.h: the halves of machine words. `gsl::narrow_cast` is a plain `static_cast`, so a
-- narrowing drops the high bits.
pub mod Laws
mod Tests
use boki.Base.{ℕ, ◌+◌, ◌*◌, ◌/◌, ◌%◌, ◌^◌}

abbrev pub u16 : ℕ → ℕ
u16 x = x % 2 ^ 16

abbrev pub u32 : ℕ → ℕ
u32 x = x % 2 ^ 32

abbrev pub u64 : ℕ → ℕ
u64 x = x % 2 ^ 64

unfoldable pub join_two32 : ℕ → ℕ → ℕ
join_two32 high low = u64 (low + high * 2 ^ 32)

unfoldable pub join_two16 : ℕ → ℕ → ℕ
join_two16 high low = u32 (low + high * 2 ^ 16)

unfoldable pub low_half64 : ℕ → ℕ
low_half64 x = u32 x

unfoldable pub low_half32 : ℕ → ℕ
low_half32 x = u16 x

unfoldable pub high_half64 : ℕ → ℕ
high_half64 x = u32 (x / 2 ^ 32)

unfoldable pub high_half32 : ℕ → ℕ
high_half32 x = u16 (x / 2 ^ 16)

-- src/log/utils.cpp, `GetViewId`: the highest 16 bits of a 64-bit position.
unfoldable pub get_view_id : ℕ → ℕ
get_view_id value = high_half32 (high_half64 value)
