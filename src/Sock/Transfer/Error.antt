-- ===== src/Sock/Transfer/Error.antt =====
-- `ep_read` of src/ep_sock.h after a failed read.
use libep.Base.{
  ℕ, suc, ◌+◌, ◌-◌, ◌<◌, ◌≡◌, ◌∙◌, refl, sym, subst, ==_self, true, false, List, ◌++◌, length,
  arith, ◌==◌, ok,
}
use libep.Base.Int.{ℤ, pos, negsuc, is_nat}
use libep.Sock.Transfer.Defs.{
  got, read_failed, Io, Buffers, store, rest, plus, read_bytes, read_loop, read,
}

module _ {K : Type 0} (io : Io K) where
  -- One round of the loop.
  round_fails :
      (fuel fd buf count : ℕ) (total : ℤ) (s : Buffers K) (k : K)
      → is_nat count total ≡ false
      → io.read fd (rest count total) s.kernel ≡ (read_failed, k)
      → read_loop io (suc fuel) fd buf count total s
        ≡ read_loop io fuel fd (buf - 1) count (negsuc 1) (record s { kernel = k; ended = false })
  unfolding read_loop read_bytes
  round_fails fuel fd buf count total s k n h = rw (n, h) refl

  round_delivers :
      (fuel fd buf count : ℕ) (total : ℤ) (s : Buffers K) (k : K) (bs : List ℕ)
      → is_nat count total ≡ false
      → io.read fd (rest count total) s.kernel ≡ (got bs, k)
      → (length bs == 0) ≡ false
      → read_loop io (suc fuel) fd buf count total s
        ≡ read_loop io fuel fd (buf + length bs) count (plus total (length bs)) (record s {
          kernel = k;
          mem = store buf bs s.mem;
          bytes = s.bytes ++ bs;
          ended = false;
        })
  unfolding read_loop read_bytes
  round_delivers fuel fd buf count total s k bs n h p = rw (n, h, p) refl

  round_ends :
      (fuel fd buf count : ℕ) (total : ℤ) (s : Buffers K)
      → is_nat count total ≡ true
      → read_loop io (suc fuel) fd buf count total s ≡ ok total s
  unfolding read_loop
  round_ends fuel fd buf count total s y = rw y refl

  -- A read that fails is followed by one of `count + 2` bytes to the byte before the buffer. When
  -- these are delivered, they are all written, from that byte on to the one behind the buffer, and
  -- `ep_read` returns `count`. The buffer has a byte at least, and the fuel is 3 at least.
  pub read_overruns :
      (fuel fd buf count : ℕ) (s : Buffers K) (k l : K) (bs : List ℕ)
      → 0 < count
      → io.read fd count s.kernel ≡ (read_failed, k)
      → io.read fd (count + 2) k ≡ (got bs, l)
      → length bs ≡ count + 2
      → read io (fuel + 3) fd buf count s
        ≡ ok (pos count) (record s {
          kernel = l;
          mem = store (buf - 1) bs s.mem;
          bytes = s.bytes ++ bs;
          ended = false;
        })
  unfolding read
  read_overruns fuel fd buf count s k l bs p h g e =
      let f : fuel + 3 ≡ suc (suc (suc fuel)) = omega arith in
      let all : rest count (pos 0) ≡ count = ground arith in
      let more : (length bs == 0) ≡ false = ground arith in
      let sum : plus (negsuc 1) (length bs) ≡ pos count = ground arith in
      rw f (
        round_fails _ fd buf count (pos 0) s k (ground arith)
          (subst (λ n. io.read fd n s.kernel ≡ (read_failed, k)) (sym all) h)
        ∙ round_delivers _ fd (buf - 1) count (negsuc 1) (record s { kernel = k; ended = false }) l
            bs refl g more
        ∙ rw sum (round_ends fuel fd _ count (pos count) _ (==_self count)))
