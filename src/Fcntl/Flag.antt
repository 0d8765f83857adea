-- ===== src/Fcntl/Flag.antt =====
-- `ep_nonblock` and `ep_block` of src/ep_fcntl.h, against what fcntl(2) says.
use Prim.Native.Nat.{bit_and, bit_or}
use libep.Base.{ℕ, ◌≡◌, ◌∙◌, ap, Option, none, some, ◌==◌, if◌then◌else◌, arith}
use libep.Base.Int.{pos, minus_one}
use libep.Fcntl.Defs.{o_nonblock, not_nonblock, Kernel, nonblock, block}

-- `flags k fd` is what the descriptor's flags are, `none` if it is not open.
pub record KernelLaws {K : Type 0} (kernel : Kernel K) : Type 0 where
  pub flags : K → ℕ → Option ℕ
  pub get : (k : K) (fd : ℕ) → kernel.getfl fd k ≡ (flags k fd, k)
  pub set_open :
      (k : K) (fd old new : ℕ)
      → flags k fd ≡ some old
      → let (ret, k') = kernel.setfl fd new k in
        (ret ≡ pos 0) × ((i : ℕ) → flags k' i ≡ (if i == fd then some new else flags k i))

module _ {K : Type 0} (kernel : Kernel K) (laws : KernelLaws kernel) (fd : ℕ) where
  open laws use {flags}

  nonblock-known :
      (k : K) (f : ℕ)
      → flags k fd ≡ some f
      → nonblock kernel fd k ≡ kernel.setfl fd (bit_or f o_nonblock) k
  unfolding nonblock
  nonblock-known k f h =
      ap
        (λ r. elim r.0 [
          | none ↦ (minus_one, r.1)
          | some g ↦ kernel.setfl fd (bit_or g o_nonblock) r.1
        ])
        (laws.get k fd ∙ ap (λ o. (o, k)) h)

  block-known :
      (k : K) (f : ℕ)
      → flags k fd ≡ some f
      → block kernel fd k ≡ kernel.setfl fd (bit_and f not_nonblock) k
  unfolding block
  block-known k f h =
      ap
        (λ r. elim r.0 [
          | none ↦ (minus_one, r.1)
          | some g ↦ kernel.setfl fd (bit_and g not_nonblock) r.1
        ])
        (laws.get k fd ∙ ap (λ o. (o, k)) h)

  -- Of a descriptor that is not open, both return -1 and change nothing.
  pub not_open :
      (k : K)
      → flags k fd ≡ none
      → (nonblock kernel fd k ≡ (minus_one, k)) × (block kernel fd k ≡ (minus_one, k))
  unfolding nonblock block
  not_open k h = (
    ap
        (λ r. elim r.0 [
          | none ↦ (minus_one, r.1)
          | some g ↦ kernel.setfl fd (bit_or g o_nonblock) r.1
        ])
        (laws.get k fd ∙ ap (λ o. (o, k)) h),
    ap
        (λ r. elim r.0 [
          | none ↦ (minus_one, r.1)
          | some g ↦ kernel.setfl fd (bit_and g not_nonblock) r.1
        ])
        (laws.get k fd ∙ ap (λ o. (o, k)) h),
  )

  -- Of an open descriptor, `ep_nonblock` returns 0 and leaves its flags with O_NONBLOCK set, and
  -- `ep_block` after it returns 0 and leaves them with O_NONBLOCK cleared.
  pub nonblock-block :
      (k : K) (f : ℕ)
      → flags k fd ≡ some f
      → let (ret, k') = nonblock kernel fd k in
        let (ret', k'') = block kernel fd k' in
        (ret ≡ pos 0)
        × (flags k' fd ≡ some (bit_or f o_nonblock))
        × (ret' ≡ pos 0)
        × (flags k'' fd ≡ some (bit_and (bit_or f o_nonblock) not_nonblock))
  nonblock-block k f h =
      let g = bit_or f o_nonblock in
      let s = laws.set_open k fd f g h in
      let k' = (kernel.setfl fd g k).1 in
      let now : flags k' fd ≡ some g = ground (arith, s.1 fd) in
      let t = laws.set_open k' fd g (bit_and g not_nonblock) now in
      rw (nonblock-known k f h, block-known k' g now) (s.0, now, t.0, ground (arith, t.1 fd))
