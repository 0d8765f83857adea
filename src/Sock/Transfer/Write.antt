-- ===== src/Sock/Transfer/Write.antt =====
-- What `ep_write` of src/ep_sock.h hands over.
use libep.Base.{
  length, ℕ, zero, suc, ◌+◌, ◌-◌, ◌<◌, ◌≤◌, ◌≡◌, ◌∙◌, refl, sym, ap, subst, ◌⊎◌, inl, inr, true,
  false, Bool-cases, Option, none, some, List, ◌∷◌, ◌++◌, append_assoc, append-nil, arith, ◌==◌,
  if◌then◌else◌, Cmd, pure, Returns, returns, mono, bind_option,
}
use libep.Base.Int.{ℤ, pos, minus_one}
use libep.Sock.System.{Reply, done, failed}
use libep.Sock.Transfer.Defs.{Io, Buffers, bytes_at, rest, deliver, write_bytes, write_loop, write}

-- The bytes of two areas, one behind the other.
bytes_at-add :
    (mem : ℕ → ℕ) (a m n : ℕ) → bytes_at mem a (m + n) ≡ bytes_at mem a m ++ bytes_at mem (a + m) n
bytes_at-add mem a zero n =
    let e : 0 + n ≡ n = omega arith in let f : a + 0 ≡ a = omega arith in rw (e, f) refl
bytes_at-add mem a (suc m) n =
    let e : suc m + n ≡ suc (m + n) = omega arith in
    let f : a + suc m ≡ suc a + m = omega arith in
    rw (e, f) (ap (λ l. mem a ∷ l) (bytes_at-add mem (suc a) m n))

-- `write` takes as many bytes as it was given at most, or fails.
abbrev pub Takes : ℕ → Reply → Type 0
Takes count (done n) = n ≤ count
Takes count (failed e) = Unit {0}

abbrev pub AcceptsAtMost : {K : Type 0} → Io K → ℕ → Type 0
AcceptsAtMost {K} io fd = (bs : List ℕ) (k : K) → Takes (length bs) (io.write fd bs k).0

length-bytes_at : (mem : ℕ → ℕ) (a n : ℕ) → length (bytes_at mem a n) ≡ n
length-bytes_at mem a zero = refl
length-bytes_at mem a (suc n) = ap suc (length-bytes_at mem (suc a) n)

module _ {K : Type 0} where
  -- Bytes of the buffer were written. The result is -1, before all of them were; or it is `total`
  -- with their number, which is `left`, or less when the last call returned 0.
  pub data Wrote (buf left total : ℕ) (s : Buffers K) (r : ℤ) (t : Buffers K) : Type 0 where
    wrote :
        (n : ℕ)
        → r ≡ pos (total + n)
        → n ≤ left
        → t.bytes ≡ s.bytes ++ bytes_at s.mem buf n
        → t.mem ≡ s.mem
        → (n ≡ left) ⊎ (t.ended ≡ true)
        → Wrote buf left total s r t
    cut_off :
        (n : ℕ)
        → r ≡ minus_one
        → n < left
        → t.bytes ≡ s.bytes ++ bytes_at s.mem buf n
        → t.mem ≡ s.mem
        → Wrote buf left total s r t

  -- Nothing more is written.
  Wrote-refl :
      (buf left total : ℕ) (s : Buffers K)
      → (0 ≡ left) ⊎ (s.ended ≡ true)
      → Wrote buf left total s (pos total) s
  Wrote-refl buf left total s f =
      let e : total + 0 ≡ total = omega arith in
      wrote 0 (ap pos (sym e)) (omega arith) (sym (append-nil s.bytes)) refl f

  joined :
      (buf : ℕ) (s u t : Buffers K) (m n : ℕ)
      → u.bytes ≡ s.bytes ++ bytes_at s.mem buf m
      → u.mem ≡ s.mem
      → t.bytes ≡ u.bytes ++ bytes_at u.mem (buf + m) n
      → t.bytes ≡ s.bytes ++ bytes_at s.mem buf (m + n)
  joined buf s u t m n b f c =
      c
      ∙ ap (λ l. l ++ bytes_at u.mem (buf + m) n) b
      ∙ append_assoc s.bytes (bytes_at s.mem buf m) (bytes_at u.mem (buf + m) n)
      ∙ ap (λ mem. s.bytes ++ (bytes_at s.mem buf m ++ bytes_at mem (buf + m) n)) f
      ∙ ap (λ l. s.bytes ++ l) (sym (bytes_at-add s.mem buf m n))

  -- One call took `m` bytes, and the rest of the loop more.
  Wrote-step :
      {buf left total : ℕ} {s u t : Buffers K} {r : ℤ} (m : ℕ)
      → m ≤ left
      → u.bytes ≡ s.bytes ++ bytes_at s.mem buf m
      → u.mem ≡ s.mem
      → Wrote (buf + m) (left - m) (total + m) u r t
      → Wrote buf left total s r t
  Wrote-step {buf} {left} {total} {s} {u} {t} m l b f (wrote n e k c g z) =
      wrote (m + n) (e ∙ ap pos (omega arith)) (omega arith) (joined buf s u t m n b f c) (g ∙ f)
        (elim z [ inl y ↦ inl (omega arith) | inr y ↦ inr y ])
  Wrote-step {buf} {left} {total} {s} {u} {t} m l b f (cut_off n e k c g) =
      cut_off (m + n) e (omega arith) (joined buf s u t m n b f c) (g ∙ f)

  -- One call that was given `left` bytes.
  data Sent (buf left : ℕ) (s : Buffers K) : Option ℕ → Buffers K → Type 0 where
    sent :
        {m : ℕ} {u : Buffers K}
        → m ≤ left
        → u.bytes ≡ s.bytes ++ bytes_at s.mem buf m
        → u.mem ≡ s.mem
        → u.ended ≡ (m == 0)
        → Sent buf left s (some m) u
    not_sent : {u : Buffers K} → u.bytes ≡ s.bytes → u.mem ≡ s.mem → Sent buf left s none u

  deliver-Sent :
      (buf left : ℕ) (r : Reply) (k : K) (s : Buffers K)
      → Takes left r
      → Returns (Sent buf left s) (deliver buf r k s)
  deliver-Sent buf left (done n) k s h = returns (sent h refl refl refl)
  deliver-Sent buf left (failed e) k s h = returns (not_sent refl refl)

  -- The loop goes on after a call unless nothing was taken.
  call-Wrote :
      {buf left total m : ℕ} {s u : Buffers K} (next : Cmd (Buffers K) ℤ)
      → Sent buf left s (some m) u
      → ((m == 0) ≡ false → m ≤ left → Returns (Wrote (buf + m) (left - m) (total + m) u) (next u))
      → Returns (Wrote buf left total s) ((if m == 0 then pure (pos total) else next) u)
  call-Wrote {buf} {left} {total} {m} {s} {u} next (sent l b f z) loop =
      elim (Bool-cases (m == 0)) [
        | inl y ↦
            let none_new : total + m ≡ total = ground arith in
            let last = Wrote-refl (buf + m) (left - m) (total + m) u (inr (z ∙ y)) in
            rw y (
              returns (
                Wrote-step m l b f
                  (subst (λ k. Wrote (buf + m) (left - m) (total + m) u (pos k) u) none_new last)))
        | inr n ↦ rw n (mono (loop n l) (λ r t q. Wrote-step m l b f q))
      ]

  failed_Wrote :
      {buf left total : ℕ} {s u : Buffers K}
      → 0 < left
      → Sent buf left s none u
      → Wrote buf left total s minus_one u
  failed_Wrote {s} p (not_sent b f) = cut_off 0 refl p (b ∙ sym (append-nil s.bytes)) f

module _ {K : Type 0} (io : Io K) (fd : ℕ) (accepts : AcceptsAtMost io fd) where
  write_bytes-Sent :
      (buf left : ℕ) (s : Buffers K) → Returns (Sent buf left s) (write_bytes io fd buf left s)
  unfolding write_bytes
  write_bytes-Sent buf left s =
      deliver-Sent buf left (io.write fd (bytes_at s.mem buf left) s.kernel).0
        (io.write fd (bytes_at s.mem buf left) s.kernel).1 s
        (subst (λ n. Takes n (io.write fd (bytes_at s.mem buf left) s.kernel).0)
          (length-bytes_at s.mem buf left) (accepts (bytes_at s.mem buf left) s.kernel))

  write_loop-Wrote :
      (fuel buf count left total : ℕ) (s : Buffers K)
      → left < fuel
      → count ≡ total + left
      → Returns (Wrote buf left total s) (write_loop io fuel fd buf count (pos total) s)
  unfolding write_loop
  write_loop-Wrote zero buf count left total s h c = absurd (omega arith)
  write_loop-Wrote (suc fuel) buf count left total s h c = elim (Bool-cases (count == total)) [
    | inl y ↦ rw y (returns (Wrote-refl buf left total s (inl (ground arith))))
    | inr n ↦
        let e : rest count (pos total) ≡ left = ground arith in
        let p : 0 < left = ground arith in
        rw (n, e)
          (bind_option _ (write_bytes-Sent buf left s) (λ u q. returns (failed_Wrote p q))
            (λ m u q. call-Wrote _ q (λ v g.
              write_loop-Wrote fuel (buf + m) count (left - m) (total + m) u (ground arith)
                (omega arith))))
  ]

  -- `ep_write` always returns: what `write` took are the first bytes of the buffer. The result is -1
  -- only if they are fewer than `count`; otherwise it is their number, and that is `count`, or fewer
  -- when the last call returned 0. `AcceptsAtMost` is what `write` promises: it takes no more than
  -- it is given. The fuel is more than `count`.
  pub write-Wrote :
      (fuel buf count : ℕ) (s : Buffers K)
      → count < fuel
      → Returns (Wrote buf count 0 s) (write io fuel fd buf count s)
  unfolding write
  write-Wrote fuel buf count s h = write_loop-Wrote fuel buf count count 0 s h (omega arith)
