-- ===== src/Sock/Transfer/Read.antt =====
-- What `ep_read` of src/ep_sock.h delivers.
use libep.Base.{
  length, length-append, bind_option, ℕ, zero, suc, ◌+◌, ◌-◌, ◌<◌, ◌≤◌, ◌≡◌, ◌∙◌, refl, sym, ap,
  ◌⊎◌, inl, inr, true, false, Bool-cases, Option, some, List, [], ◌∷◌, ◌++◌, append_assoc,
  append-nil, arith, ◌==◌, if◌then◌else◌, Cmd, pure, subst, Returns, returns, mono,
}
use libep.Base.Int.{ℤ, pos}
use libep.Sock.Transfer.Defs.{
  Got, got, read_failed, Io, Buffers, store, rest, receive, read_bytes, read_loop, read,
}

-- Bytes written one after the other, in two parts.
store-append :
    (a : ℕ) (xs ys : List ℕ) (mem : ℕ → ℕ)
    → store a (xs ++ ys) mem ≡ store (a + length xs) ys (store a xs mem)
store-append a [] ys mem = let e : a + 0 ≡ a = omega arith in rw e refl
store-append a (x ∷ xs) ys mem =
    let e : a + suc (length xs) ≡ suc a + length xs = omega arith in
    rw e (store-append (suc a) xs ys _)

-- `read` answers with as many bytes as it was asked for at most, and does not fail.
pub data Delivered (count : ℕ) : Got → Type 0 where
  delivered : {bs : List ℕ} → length bs ≤ count → Delivered count (got bs)

abbrev pub Delivers : {K : Type 0} → Io K → ℕ → Type 0
Delivers {K} io fd = (count : ℕ) (k : K) → Delivered count (io.read fd count k).0

module _ {K : Type 0} where
  -- Bytes were read to the buffer, and `total` grew by their number: by `left`, or by less when the
  -- last call returned 0.
  pub record Filled (buf left total : ℕ) (s : Buffers K) (r : ℤ) (t : Buffers K) : Type 0 where
    pub new : List ℕ
    pub result : r ≡ pos (total + length new)
    pub fits : length new ≤ left
    pub bytes : t.bytes ≡ s.bytes ++ new
    pub mem : t.mem ≡ store buf new s.mem
    pub full : (length new ≡ left) ⊎ (t.ended ≡ true)

  -- Nothing more is read.
  Filled-refl :
      (buf left total : ℕ) (s : Buffers K)
      → (0 ≡ left) ⊎ (s.ended ≡ true)
      → Filled buf left total s (pos total) s
  Filled-refl buf left total s f = record {
    new = [];
    result = let e : total + 0 ≡ total = omega arith in ap pos (sym e);
    fits = omega arith;
    bytes = sym (append-nil s.bytes);
    mem = refl;
    full = f;
  }

  -- One call delivered bytes, and the rest of the loop more.
  Filled-step :
      {buf left total left' : ℕ} {s u t : Buffers K} {r : ℤ} (bs : List ℕ)
      → left ≡ length bs + left'
      → u.bytes ≡ s.bytes ++ bs
      → u.mem ≡ store buf bs s.mem
      → Filled (buf + length bs) left' (total + length bs) u r t
      → Filled buf left total s r t
  Filled-step {buf} {left} {total} {left'} {s} {u} {t} bs h b m f = record {
    new = bs ++ f.new;
    result = f.result ∙ ap pos (omega (arith, length-append bs f.new));
    fits = omega (arith, length-append bs f.new, f.fits);
    bytes = f.bytes ∙ ap (λ l. l ++ f.new) b ∙ append_assoc s.bytes bs f.new;
    mem = f.mem ∙ ap (store (buf + length bs) f.new) m ∙ sym (store-append buf bs f.new s.mem);
    full = elim f.full [ inl e ↦ inl (omega (arith, length-append bs f.new)) | inr e ↦ inr e ];
  }

  -- One call that was asked for `left` bytes.
  data Received (buf left : ℕ) (s : Buffers K) : Option ℕ → Buffers K → Type 0 where
    received :
        {m : ℕ} {u : Buffers K} (bs : List ℕ)
        → m ≡ length bs
        → m ≤ left
        → u.bytes ≡ s.bytes ++ bs
        → u.mem ≡ store buf bs s.mem
        → u.ended ≡ (m == 0)
        → Received buf left s (some m) u

  receive-Received :
      (buf left : ℕ) (r : Got) (k : K) (s : Buffers K)
      → Delivered left r
      → Returns (Received buf left s) (receive buf r k s)
  receive-Received buf left (got bs) k s (delivered h) = returns (received bs refl h refl refl refl)
  receive-Received buf left read_failed k s d = elim d [ ]

  -- The loop goes on after a call unless nothing was delivered.
  call-Filled :
      {buf left total m : ℕ} {s u : Buffers K} (next : Cmd (Buffers K) ℤ)
      → Received buf left s (some m) u
      → ((m == 0) ≡ false → m ≤ left → Returns (Filled (buf + m) (left - m) (total + m) u) (next u))
      → Returns (Filled buf left total s) ((if m == 0 then pure (pos total) else next) u)
  call-Filled {buf} {left} {total} {m} {s} {u} next (received bs e l b f z) loop =
      let l' : left ≡ length bs + (left - m) = omega arith in
      elim (Bool-cases (m == 0)) [
        | inl y ↦
            let none_new : total + length bs ≡ total = ground arith in
            let last =
              Filled-refl (buf + length bs) (left - m) (total + length bs) u (inr (z ∙ y)) in
            rw y (
              returns (
                Filled-step bs l' b f (
                  subst (λ k. Filled (buf + length bs) (left - m) (total + length bs) u (pos k) u)
                    none_new last)))
        | inr n ↦ rw n (
            mono (loop n l) (λ r t q.
              Filled-step bs l' b f
                (subst (λ k. Filled (buf + k) (left - m) (total + k) u r t) e q)))
      ]

module _ {K : Type 0} (io : Io K) (fd : ℕ) (delivers : Delivers io fd) where
  read_bytes-Received :
      (buf left : ℕ) (s : Buffers K) → Returns (Received buf left s) (read_bytes io fd buf left s)
  unfolding read_bytes
  read_bytes-Received buf left s =
      receive-Received buf left (io.read fd left s.kernel).0 (io.read fd left s.kernel).1 s
        (delivers left s.kernel)

  read_loop-Filled :
      (fuel buf count left total : ℕ) (s : Buffers K)
      → left < fuel
      → count ≡ total + left
      → Returns (Filled buf left total s) (read_loop io fuel fd buf count (pos total) s)
  unfolding read_loop
  read_loop-Filled zero buf count left total s h c = absurd (omega arith)
  read_loop-Filled (suc fuel) buf count left total s h c = elim (Bool-cases (count == total)) [
    | inl y ↦ rw y (returns (Filled-refl buf left total s (inl (ground arith))))
    | inr n ↦
        let e : rest count (pos total) ≡ left = ground arith in
        let p : 0 < left = ground arith in
        rw (n, e)
          (bind_option _ (read_bytes-Received buf left s) (λ u q. elim q [ ])
            (λ m u q. call-Filled _ q (λ v g.
              read_loop-Filled fuel (buf + m) count (left - m) (total + m) u (ground arith)
                (omega arith))))
  ]

  -- `ep_read` returns when no call of `read` fails: what it returns is the number of bytes that were
  -- delivered and written to the buffer, one after the other. They are `count`, or fewer when the
  -- last call returned 0. `Delivers` is what read promises: it delivers no more than it is asked
  -- for. The fuel is more than `count`.
  pub read-Filled :
      (fuel buf count : ℕ) (s : Buffers K)
      → count < fuel
      → Returns (Filled buf count 0 s) (read io fuel fd buf count s)
  unfolding read
  read-Filled fuel buf count s h = read_loop-Filled fuel buf count count 0 s h (omega arith)
