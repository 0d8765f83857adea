-- ===== src/Fcntl/Defs.antt =====
-- The operations of src/ep_fcntl.h over a kernel, whose state is `K`.
use Prim.Native.Nat.{bit_and, bit_or}
use libep.Base.{ℕ, Option, none, some}
use libep.Base.Int.{ℤ, minus_one}

-- O_NONBLOCK of <fcntl.h>, and `~O_NONBLOCK` for an `int` of 32 bits.
abbrev pub o_nonblock : ℕ
o_nonblock = 0x800

abbrev pub not_nonblock : ℕ
not_nonblock = 0xFFFFF7FF

-- `fcntl` with F_GETFL, whose `none` is -1, and with F_SETFL.
pub record Kernel (K : Type 0) : Type 0 where
  pub getfl : ℕ → K → Option ℕ × K
  pub setfl : ℕ → ℕ → K → ℤ × K

module _ {K : Type 0} (kernel : Kernel K) where
  open kernel use {getfl, setfl}

  unfoldable pub nonblock : ℕ → K → ℤ × K
  nonblock fd k =
      let (flags, k') = getfl fd k in
      elim flags [ none ↦ (minus_one, k') | some f ↦ setfl fd (bit_or f o_nonblock) k' ]

  unfoldable pub block : ℕ → K → ℤ × K
  block fd k =
      let (flags, k') = getfl fd k in
      elim flags [ none ↦ (minus_one, k') | some f ↦ setfl fd (bit_and f not_nonblock) k' ]
