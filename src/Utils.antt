-- ===== src/Utils.antt =====
-- utils/Utils.cc
use mykafka.Prelude.{ℕ}
use mykafka.Prelude.Int.{ℤ, ◌-ℤ◌, rem_ℤ}

-- int64_t roundDownToMultiple(int64_t value, int64_t factor); every caller's factor is a constant
unfoldable pub round_down_to_multiple : ℤ → ℕ → ℤ
round_down_to_multiple value factor = value -ℤ rem_ℤ value factor
