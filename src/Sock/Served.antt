-- ===== src/Sock/Served.antt =====
-- The ways in which the servers of src/ep_sock.h can end.
use libep.Base.{
  ℕ, suc, ◌≡◌, ◌∙◌, refl, sym, ap, subst, Bool, true, false, Option, none, some, List, ◌∷◌, ◌==◌,
  ◌>>◌, pure, Returns, returns, bind,
}
use libep.Sock.System.{Hints, World, Deed, reused, bound, listening, only_v6, freeaddrinfo}
use libep.Sock.Frame.{Owns, Owns-Performed, Performed, freeaddrinfo-Frees}
use libep.Sock.Prepare.{deed_if}
use libep.Sock.Server.{ai_passive, af_inet6}

-- What is done to a server's socket before it is bound.
abbrev pub readied : ℕ → ℕ → List Deed → List Deed
readied af s ds = reused s ∷ deed_if (af == af_inet6) (only_v6 s) ds

-- The hints of a server.
abbrev pub passive : (af socktype : ℕ) → Hints
passive af socktype = record { flags = ai_passive; family = af; socktype = socktype }

module _ {K : Type 0} where
  -- The descriptors are those of `w`, or one more is open although -1 is returned.
  pub data Left (w t : World K) : Type 0 where
    closed : t.live ≡ w.live → Left w t
    leaked : (s : ℕ) → t.live ≡ s ∷ w.live → Left w t

  -- The result is a new socket, which is set up, bound and, if it `listens`, listening; or it is -1.
  pub data Served (af : ℕ) (listens : Bool) (w : World K) : Option ℕ → World K → Type 0 where
    serving :
        {s : ℕ} {t : World K} (ds : List Deed)
        → t.live ≡ s ∷ w.live
        → t.deeds ≡ deed_if listens (listening s) (bound s ∷ readied af s ds)
        → Served af listens w (some s) t
    refused : {t : World K} → Left w t → Served af listens w none t

  pub record Server (af : ℕ) (listens : Bool) (w : World K) (r : Option ℕ) (t : World K)
      : Type 0 where
    pub infos : t.infos ≡ w.infos
    pub served : Served af listens w r t

  -- The socket `s` is open, and the deeds are `ds`; or a call on it failed.
  pub data Ready (s : ℕ) (w : World K) (ds : List Deed) : Bool → World K → Type 0 where
    ready : {t : World K} → Owns w (some s) t → t.deeds ≡ ds → Ready s w ds true t
    unready : {t : World K} → t.infos ≡ w.infos → Left w t → Ready s w ds false t

  pub Ready-Owns :
      {s : ℕ} {w t : World K} {ds : List Deed} → Ready s w ds true t → Owns w (some s) t
  Ready-Owns (ready o d) = o

  pub Ready_deeds : {s : ℕ} {w t : World K} {ds : List Deed} → Ready s w ds true t → t.deeds ≡ ds
  Ready_deeds (ready o d) = d

  pub Performed-Ready :
      {s : ℕ} {w v t : World K} {ds : List Deed} {d : Deed} {b : Bool}
      → Owns w (some s) v
      → v.deeds ≡ ds
      → Performed (some d) v b t
      → Ready s w (d ∷ ds) b t
  Performed-Ready {d} {b = true} o e p = ready (Owns-Performed o p) (p.deeds ∙ ap (λ ds. d ∷ ds) e)
  Performed-Ready {s} {b = false} o e p = unready (p.infos ∙ o.infos) (leaked s (p.live ∙ o.live))

  pub unready_again :
      {s : ℕ} {w t : World K} {ds es : List Deed} → Ready s w ds false t → Ready s w es false t
  unready_again (unready i l) = unready i l

  pub Ready_kernel :
      {s : ℕ} {w t : World K} {ds : List Deed} {k : K}
      → Ready s w ds true t
      → Ready s w ds true (record t { kernel = k })
  Ready_kernel (ready o d) = ready (record { live = o.live; infos = o.infos }) d

  pub refused_Server :
      {af s : ℕ} {listens : Bool} {w t : World K} {ds : List Deed}
      → Ready s w ds false t
      → Server af listens w none t
  refused_Server (unready i l) = record { infos = i; served = refused l }

  pub serving_Server :
      {af s : ℕ} {listens : Bool} {w t : World K} (ds : List Deed)
      → Ready s w (deed_if listens (listening s) (bound s ∷ readied af s ds)) true t
      → Server af listens w (some s) t
  serving_Server ds (ready o d) = record { infos = o.infos; served = serving ds o.live d }

  pub Left-from : {w v t : World K} → v.live ≡ w.live → Left v t → Left w t
  Left-from h (closed l) = closed (l ∙ h)
  Left-from h (leaked s l) = leaked s (l ∙ ap (λ l. s ∷ l) h)

  pub Served-from :
      {af : ℕ} {listens : Bool} {w v t : World K} {r : Option ℕ}
      → v.live ≡ w.live
      → Served af listens v r t
      → Served af listens w r t
  Served-from h (serving {s} ds l d) = serving ds (l ∙ ap (λ l. s ∷ l) h) d
  Served-from h (refused l) = refused (Left-from h l)

  pub Server-from :
      {af : ℕ} {listens : Bool} {w v t : World K} {r : Option ℕ}
      → v.live ≡ w.live
      → v.infos ≡ w.infos
      → Server af listens v r t
      → Server af listens w r t
  Server-from h i s = record { infos = s.infos ∙ i; served = Served-from h s.served }

  pub Served-freed :
      {af : ℕ} {listens : Bool} {w t : World K} {r : Option ℕ} (n : ℕ)
      → Served af listens w r t
      → Served af listens w r (record t { infos = n })
  Served-freed n (serving ds l d) = serving ds l d
  Served-freed n (refused (closed l)) = refused (closed l)
  Served-freed n (refused (leaked s l)) = refused (leaked s l)

  -- The address list is freed at the label `end`.
  pub freed-Server :
      {af : ℕ} {listens : Bool} (w t : World K) (r : Option ℕ)
      → t.infos ≡ suc w.infos
      → Served af listens w r t
      → Returns (Server af listens w) ((freeaddrinfo >> pure r) t)
  freed-Server w t r i o = bind (freeaddrinfo-Frees t w.infos i) (λ x y e.
      returns
        (subst (Server _ _ w r) (sym e) record { infos = refl; served = Served-freed w.infos o }))
