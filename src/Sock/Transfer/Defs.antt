-- ===== src/Sock/Transfer/Defs.antt =====
-- `ep_read` and `ep_write` of src/ep_sock.h, over a memory of bytes and the system calls `read` and
-- `write`. A count that is not negative is a natural number; `total` can be negative. Both loops
-- take fuel.
use libep.Base.{
  length, ℕ, zero, suc, ◌+◌, ◌-◌, ◌^◌, Bool, false, Option, none, some, List, [], ◌∷◌, ◌++◌, ltb,
  leb, ◌==◌, if◌then◌else◌, Cmd, ok, out_of_fuel, ◌>>=◌, pure,
}
use libep.Base.Int.{ℤ, pos, negsuc, minus_one, is_nat}
use libep.Sock.System.{Reply, done, failed}

-- What `read` answers: the bytes, whose number it returns, or -1.
pub data Got : Type 0 where
  got : List ℕ → Got
  read_failed : Got

pub record Io (K : Type 0) : Type 0 where
  pub read : ℕ → (count : ℕ) → K → Got × K
  pub write : ℕ → List ℕ → K → Reply × K

-- `bytes` are what the reads delivered or the writes took so far, and `ended` says that the last
-- call returned 0.
pub record Buffers (K : Type 0) : Type 0 where
  pub kernel : K
  pub mem : ℕ → ℕ
  pub bytes : List ℕ
  pub ended : Bool

-- The memory with bytes written to it from an address on.
abbrev pub store : ℕ → List ℕ → (ℕ → ℕ) → ℕ → ℕ
store a [] mem = mem
store a (b ∷ bs) mem = store (suc a) bs (λ c. if c == a then b else mem c)

-- As many bytes from an address on.
abbrev pub bytes_at : (ℕ → ℕ) → ℕ → ℕ → List ℕ
bytes_at mem a zero = []
bytes_at mem a (suc n) = mem a ∷ bytes_at mem (suc a) n

-- `count - total` as a `size_t`.
abbrev pub rest : ℕ → ℤ → ℕ
rest count (pos total) = if leb total count then count - total else count + 2 ^ 64 - total
rest count (negsuc total) = count + suc total

-- `total + n`
abbrev pub plus : ℤ → ℕ → ℤ
plus (pos total) n = pos (total + n)
plus (negsuc total) n = if ltb total n then pos (n - suc total) else negsuc (total - n)

module _ {K : Type 0} where
  abbrev pub receive : ℕ → Got → K → Cmd (Buffers K) (Option ℕ)
  receive buf (got bs) k s = ok (some (length bs)) (record s {
    kernel = k;
    mem = store buf bs s.mem;
    bytes = s.bytes ++ bs;
    ended = length bs == 0;
  })
  receive buf read_failed k s = ok none (record s { kernel = k; ended = false })

  abbrev pub deliver : ℕ → Reply → K → Cmd (Buffers K) (Option ℕ)
  deliver buf (done n) k s =
      ok (some n) (record s { kernel = k; bytes = s.bytes ++ bytes_at s.mem buf n; ended = n == 0 })
  deliver buf (failed e) k s = ok none (record s { kernel = k; ended = false })

module _ {K : Type 0} (io : Io K) where
  -- The system calls; -1 is `none`.
  unfoldable pub read_bytes : ℕ → ℕ → ℕ → Cmd (Buffers K) (Option ℕ)
  read_bytes fd buf count s = let (r, k) = io.read fd count s.kernel in receive buf r k s

  unfoldable pub write_bytes : ℕ → ℕ → ℕ → Cmd (Buffers K) (Option ℕ)
  write_bytes fd buf count s =
      let (r, k) = io.write fd (bytes_at s.mem buf count) s.kernel in deliver buf r k s

  -- The loop of `ep_read`. After -1 it goes on, with `total` and `buf` lowered.
  unfoldable pub read_loop : (fuel fd buf count : ℕ) (total : ℤ) → Cmd (Buffers K) ℤ
  read_loop zero fd buf count total = λ s. out_of_fuel
  read_loop (suc fuel) fd buf count total = if is_nat count total then pure total else do
    n ← read_bytes fd buf (rest count total)
    elim n [
      | none ↦ read_loop fuel fd (buf - 1) count (negsuc 1)
      | some m ↦ if m == 0 then pure total else read_loop fuel fd (buf + m) count (plus total m)
    ]

  unfoldable pub read : (fuel fd buf count : ℕ) → Cmd (Buffers K) ℤ
  read fuel fd buf count = read_loop fuel fd buf count (pos 0)

  unfoldable pub write_loop : (fuel fd buf count : ℕ) (total : ℤ) → Cmd (Buffers K) ℤ
  write_loop zero fd buf count total = λ s. out_of_fuel
  write_loop (suc fuel) fd buf count total = if is_nat count total then pure total else do
    n ← write_bytes fd buf (rest count total)
    elim n [
      | none ↦ pure minus_one
      | some m ↦ if m == 0 then pure total else write_loop fuel fd (buf + m) count (plus total m)
    ]

  unfoldable pub write : (fuel fd buf count : ℕ) → Cmd (Buffers K) ℤ
  write fuel fd buf count = write_loop fuel fd buf count (pos 0)
