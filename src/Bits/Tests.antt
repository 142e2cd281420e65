-- ===== src/Bits/Tests.antt =====
-- Instances of the laws of joined words, and evaluations.
use boki.Base.{◌≡◌, refl, arith}
use boki.Bits.{join_two32, join_two16, low_half64, low_half32, high_half64, get_view_id}
use boki.Bits.Laws.{join-split32, position_parts}

join-split32_example :
    (high_half64 (join_two32 0x20003 7) ≡ 0x20003)
    × (low_half64 (join_two32 0x20003 7) ≡ 7)
    × (join_two32 (high_half64 0x1234_5678_9abc_def0) (low_half64 0x1234_5678_9abc_def0)
        ≡ 0x1234_5678_9abc_def0)
join-split32_example =
    join-split32 0x20003 7 0x1234_5678_9abc_def0 (omega arith) (omega arith) (omega arith)

position_parts_example :
    (get_view_id (join_two32 (join_two16 2 3) 7) ≡ 2)
    × (low_half32 (high_half64 (join_two32 (join_two16 2 3) 7)) ≡ 3)
    × (low_half64 (join_two32 (join_two16 2 3) 7) ≡ 7)
position_parts_example = position_parts 2 3 7 (omega arith) (omega arith) (omega arith)

joined : join_two32 (join_two16 2 3) 7 ≡ 0x0002_0003_0000_0007
unfolding join_two32 join_two16
joined = refl
