-- ===== src/Bits/Laws.antt =====
-- The halves of a joined word, and the order of joined words.
use boki.Base.{ℕ, ◌+◌, ◌*◌, ◌^◌, ◌<◌, ◌≡◌, arith}
use boki.Bits.{
  join_two32, join_two16, low_half64, low_half32, high_half64, high_half32, get_view_id,
}

-- For 32-bit halves, splitting a joined 64-bit word gives back both halves, and joining the halves
-- of a 64-bit word gives back the word.
pub join-split32 :
    (high low x : ℕ)
    → high < 2 ^ 32
    → low < 2 ^ 32
    → x < 2 ^ 64
    → (high_half64 (join_two32 high low) ≡ high)
      × (low_half64 (join_two32 high low) ≡ low)
      × (join_two32 (high_half64 x) (low_half64 x) ≡ x)
unfolding join_two32 high_half64 low_half64
join-split32 high low x p q r = (omega arith, omega arith, omega arith)

-- The position of a log entry is made of its view, its sequencer and its place in the log space:
-- `GetViewId` reads the view back, and the halves read the other two.
pub position_parts :
    (view sequencer low : ℕ)
    → view < 2 ^ 16
    → sequencer < 2 ^ 16
    → low < 2 ^ 32
    → (get_view_id (join_two32 (join_two16 view sequencer) low) ≡ view)
      × (low_half32 (high_half64 (join_two32 (join_two16 view sequencer) low)) ≡ sequencer)
      × (low_half64 (join_two32 (join_two16 view sequencer) low) ≡ low)
unfolding join_two32 join_two16 high_half64 high_half32 low_half64 low_half32 get_view_id
position_parts view sequencer low p q r = (omega arith, omega arith, omega arith)

pub join_two32_lem :
    (high low : ℕ) → high < 2 ^ 32 → low < 2 ^ 32 → join_two32 high low ≡ low + high * 2 ^ 32
unfolding join_two32
join_two32_lem high low p q = omega arith

pub join_two16-lt : (high low : ℕ) → join_two16 high low < 2 ^ 32
unfolding join_two16
join_two16-lt high low = omega arith

pub low_half64-lt : (x : ℕ) → low_half64 x < 2 ^ 32
unfolding low_half64
low_half64-lt x = omega arith
