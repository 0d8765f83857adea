-- ===== src/Sock/Frame.antt =====
-- What the calls of src/ep_sock.h do to the descriptors and the address lists that are held.
use libep.Base.{
  ℕ, suc, ◌-◌, ◌≡◌, ◌∙◌, refl, ap, Bool, false, Option, none, some, List, ◌∷◌, arith, ◌==◌, ==_self,
  if◌then◌else◌, ok, Returns, returns, mono,
}
use libep.Sock.System.{
  Reply, done, failed, succeeded, descriptor, AddrInfo, Hints, System, World, Deed, add_deed,
  settle, opened, remove, perform, open_by, close, freeaddrinfo, getaddrinfo,
}

-- The descriptors with one more, if there is one.
abbrev pub holding : Option ℕ → List ℕ → List ℕ
holding none l = l
holding (some fd) l = fd ∷ l

pub remove_head : (fd : ℕ) (l : List ℕ) → remove fd (fd ∷ l) ≡ l
remove_head fd l = rw (==_self fd) refl

module _ {K : Type 0} where
  -- The descriptors are those of `w` and the result's, if it is one; as many address lists are held
  -- as in `w`.
  pub record Owns (w : World K) (r : Option ℕ) (t : World K) : Type 0 where
    pub live : t.live ≡ holding r w.live
    pub infos : t.infos ≡ w.infos

  pub record Performed (deed : Option Deed) (w : World K) (b : Bool) (t : World K) : Type 0 where
    pub live : t.live ≡ w.live
    pub infos : t.infos ≡ w.infos
    pub deeds : t.deeds ≡ (if b then add_deed deed w.deeds else w.deeds)

  settle-Performed :
      (deed : Option Deed) (r : Reply) (k : K) (w : World K)
      → Performed deed w (succeeded r) (settle deed r k w)
  settle-Performed deed (done n) k w = record { live = refl; infos = refl; deeds = refl }
  settle-Performed deed (failed e) k w = record { live = refl; infos = refl; deeds = refl }

  pub perform-Performed :
      (deed : Option Deed) (call : K → Reply × K) (w : World K)
      → Returns (Performed deed w) (perform deed call w)
  unfolding perform
  perform-Performed deed call w =
      returns (settle-Performed deed (call w.kernel).0 (call w.kernel).1 w)

  -- The calls that succeeded are those of `w`.
  pub record Opened (w : World K) (r : Option ℕ) (t : World K) : Type 0 where
    pub owns : Owns w r t
    pub deeds : t.deeds ≡ w.deeds

  opened-Opened : (r : Reply) (k : K) (w : World K) → Opened w (descriptor r) (opened r k w)
  opened-Opened (done fd) k w = record { owns = record { live = refl; infos = refl }; deeds = refl }
  opened-Opened (failed e) k w = record {
    owns = record { live = refl; infos = refl };
    deeds = refl;
  }

  pub open_by-Opened : (call : K → Reply × K) (w : World K) → Returns (Opened w) (open_by call w)
  unfolding open_by
  open_by-Opened call w = returns (opened-Opened (call w.kernel).0 (call w.kernel).1 w)

  pub open_by-Owns : (call : K → Reply × K) (w : World K) → Returns (Owns w) (open_by call w)
  open_by-Owns call w = mono (open_by-Opened call w) (λ r t o. o.owns)

  -- What holds from a world with the same descriptors and lists.
  pub Owns-trans : {w v t : World K} {r : Option ℕ} → Owns w none v → Owns v r t → Owns w r t
  Owns-trans {r} h k = record { live = k.live ∙ ap (holding r) h.live; infos = k.infos ∙ h.infos }

  pub Owns-Performed :
      {w v t : World K} {r : Option ℕ} {deed : Option Deed} {b : Bool}
      → Owns w r v
      → Performed deed v b t
      → Owns w r t
  Owns-Performed h p = record { live = p.live ∙ h.live; infos = p.infos ∙ h.infos }

  -- The same but for the address lists: one more is held.
  pub record Resolved (w : World K) (found : Option (List AddrInfo)) (t : World K) : Type 0 where
    pub live : t.live ≡ w.live
    pub deeds : t.deeds ≡ w.deeds
    pub infos : t.infos ≡ elim found [ none ↦ w.infos | some _ ↦ suc w.infos ]

  -- One address list fewer is held.
  pub freeaddrinfo-Frees :
      (v : World K) (n : ℕ)
      → v.infos ≡ suc n
      → Returns (λ _ t. t ≡ record v { infos = n }) (freeaddrinfo v)
  unfolding freeaddrinfo
  freeaddrinfo-Frees v n h =
      let f : (suc n == 0) ≡ false = ground arith in
      let g : suc n - 1 ≡ n = omega arith in rw (h, f, g) (returns refl)

module _ {K : Type 0} (sys : System K) where
  pub close-Owns :
      (fd : ℕ) (w v : World K)
      → Owns w (some fd) v
      → Returns (λ _ t. Owns w none t) (close sys fd v)
  unfolding close
  close-Owns fd w v h =
      returns record { live = ap (remove fd) h.live ∙ remove_head fd w.live; infos = h.infos }

  pub getaddrinfo-Resolved :
      (host port : Option (List ℕ)) (hints : Hints) (w : World K)
      → Returns (Resolved w) (getaddrinfo sys host port hints w)
  unfolding getaddrinfo
  getaddrinfo-Resolved host port hints w = go (sys.getaddrinfo host port hints w.kernel)
    where
      go :
          (found : Option (List AddrInfo) × K)
          → Returns (Resolved w) (elim found.0 [
            | none ↦ ok none (record w { kernel = found.1 })
            | some infos ↦ ok (some infos) (record w { kernel = found.1; infos = suc w.infos })
          ])
      go (none, k) = returns record { live = refl; deeds = refl; infos = refl }
      go (some infos, k) = returns record { live = refl; deeds = refl; infos = refl }

  pub getaddrinfo_found :
      (host port : Option (List ℕ)) (hints : Hints) (w : World K) (infos : List AddrInfo)
      → (sys.getaddrinfo host port hints w.kernel).0 ≡ some infos
      → getaddrinfo sys host port hints w
        ≡ ok (some infos) (record w {
          kernel = (sys.getaddrinfo host port hints w.kernel).1;
          infos = suc w.infos;
        })
  unfolding getaddrinfo
  getaddrinfo_found host port hints w infos h = rw (h, getaddrinfo) refl

  pub getaddrinfo_none :
      (host port : Option (List ℕ)) (hints : Hints) (w : World K)
      → (sys.getaddrinfo host port hints w.kernel).0 ≡ none
      → getaddrinfo sys host port hints w
        ≡ ok none (record w { kernel = (sys.getaddrinfo host port hints w.kernel).1 })
  unfolding getaddrinfo
  getaddrinfo_none host port hints w h = rw (h, getaddrinfo) refl
