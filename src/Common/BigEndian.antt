-- ===== src/Common/BigEndian.antt =====
-- `i64::from_be_bytes`, `to_be_bytes` and `BufMut::put_u64`, on bit patterns.
use powder_raft.Common.{
  ℕ, Bytes, u64_mod, arith, none, Option, ap, some, ◌≡◌, ◌<◌, ◌+◌, ◌*◌, ◌∷◌, ◌%◌, ◌/◌, [],
}

unfoldable pub from_be_bytes : Bytes → Option ℕ
from_be_bytes (a ∷ b ∷ c ∷ d ∷ e ∷ f ∷ g ∷ h ∷ []) =
    some (((((((a * 256 + b) * 256 + c) * 256 + d) * 256 + e) * 256 + f) * 256 + g) * 256 + h)
from_be_bytes _ = none

unfoldable pub to_be_bytes : ℕ → Bytes
to_be_bytes n =
    n / 0x100000000000000 % 256
    ∷ n / 0x1000000000000 % 256
    ∷ n / 0x10000000000 % 256
    ∷ n / 0x100000000 % 256
    ∷ n / 0x1000000 % 256
    ∷ n / 0x10000 % 256
    ∷ n / 0x100 % 256
    ∷ n % 256
    ∷ []

-- A counter that was written is read back.
pub from_be_bytes-to_be_bytes : (n : ℕ) → n < u64_mod → from_be_bytes (to_be_bytes n) ≡ some n
unfolding from_be_bytes to_be_bytes
from_be_bytes-to_be_bytes n h = ap some (omega arith)
