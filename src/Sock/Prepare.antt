-- ===== src/Sock/Prepare.antt =====
-- What the connecting functions of src/ep_sock.h have done to a socket when they call `connect`.
use libep.Base.{
  Run, Cmd, and_then, ℕ, ◌≡◌, ◌∙◌, refl, sym, ap, subst, suc, ◌>>◌, pure, Bool, true, false, Option,
  none, some, List, [], ◌∷◌, if◌then◌else◌, Returns, returns, bind, mono, bind_bool, bind_option,
}
use libep.Sock.System.{
  so_reuseaddr, AddrInfo, Hints, System, World, Deed, reused, nonblocking, bound, freeaddrinfo,
}
use libep.Sock.Frame.{Performed, perform-Performed, getaddrinfo-Resolved, freeaddrinfo-Frees}
use libep.Sock.Options.{size_of_int, reuseaddr_enable, set_int, nonblock}
use libep.Sock.Connect.{Next, proceed, to_err, to_ret, bind_any, bind_source, prepare}

abbrev pub is_some : {A : Type 0} → Option A → Bool
is_some none = false
is_some (some a) = true

-- The deeds with one more under a condition.
abbrev pub deed_if : Bool → Deed → List Deed → List Deed
deed_if false d ds = ds
deed_if true d ds = d ∷ ds

-- The socket is set up, for the source that is given and the mode that is asked for.
abbrev pub prepared : Option (List ℕ) → Bool → ℕ → List Deed → List Deed
prepared source nb s ds =
    deed_if (is_some source) (bound s) (deed_if nb (nonblocking s) (reused s ∷ ds))

-- Where the body goes on, and what was done then; `ds` are the deeds so far.
pub data Went (source : Option (List ℕ)) (s : ℕ) (ds : List Deed) : Next → List Deed → Type 0 where
  went_on :
      {es : List Deed} → es ≡ deed_if (is_some source) (bound s) ds → Went source s ds proceed es
  went_err : {es : List Deed} → Went source s ds to_err es
  went_ret : {es : List Deed} → is_some source ≡ true → es ≡ ds → Went source s ds to_ret es

-- The rule for where the body goes on.
pub bind_next :
    {S B : Type 0} {P : Next → S → Type 0} {Q : B → S → Type 0} {r : Run S Next}
    (k : Next → Cmd S B)
    → Returns P r
    → ((s : S) → P proceed s → Returns Q (k proceed s))
    → ((s : S) → P to_err s → Returns Q (k to_err s))
    → ((s : S) → P to_ret s → Returns Q (k to_ret s))
    → Returns Q (and_then r k)
bind_next k (returns {a = proceed} p) on_proceed on_err on_ret = on_proceed _ p
bind_next k (returns {a = to_err} p) on_proceed on_err on_ret = on_err _ p
bind_next k (returns {a = to_ret} p) on_proceed on_err on_ret = on_ret _ p

pub Went-proceed :
    {source : Option (List ℕ)} {s : ℕ} {ds es : List Deed}
    → Went source s ds proceed es
    → es ≡ deed_if (is_some source) (bound s) ds
Went-proceed (went_on e) = e

pub Went-ret :
    {source : Option (List ℕ)} {s : ℕ} {ds es : List Deed}
    → Went source s ds to_ret es
    → (is_some source ≡ true) × (es ≡ ds)
Went-ret (went_ret e d) = (e, d)

module _ {K : Type 0} where
  -- The descriptors and the address lists are those of `v`.
  pub record Prepared (source : Option (List ℕ)) (s : ℕ) (ds : List Deed) (v : World K)
      (next : Next) (t : World K) : Type 0 where
    pub live : t.live ≡ v.live
    pub infos : t.infos ≡ v.infos
    pub went : Went source s ds next t.deeds

  -- The same from an earlier world with the same descriptors and lists.
  Prepared-after :
      {source : Option (List ℕ)} {s : ℕ} {ds : List Deed} {v t u : World K} {next : Next}
      → t.live ≡ v.live
      → t.infos ≡ v.infos
      → t.deeds ≡ ds
      → Prepared source s t.deeds t next u
      → Prepared source s ds v next u
  Prepared-after {source} {s} {u} {next} live infos deeds p = record {
    live = p.live ∙ live;
    infos = p.infos ∙ infos;
    went = subst (λ ds. Went source s ds next u.deeds) deeds p.went;
  }

  freeaddrinfo-Prepared :
      {source : Option (List ℕ)} {s : ℕ} {ds : List Deed} {v : World K} (u : World K) (next : Next)
      → u.live ≡ v.live
      → u.infos ≡ suc v.infos
      → Went source s ds next u.deeds
      → Returns (Prepared source s ds v) ((freeaddrinfo >> pure next) u)
  freeaddrinfo-Prepared {source} {s} {ds} {v} u next live infos went =
      bind (freeaddrinfo-Frees u v.infos infos) (λ x y e. returns record {
        live = ap (λ y. y.live) e ∙ live;
        infos = ap (λ y. y.infos) e;
        went = subst (Went source s ds next) (sym (ap (λ y. y.deeds) e)) went;
      })

module _ {K : Type 0} (sys : System K) where
  bind_any-Performed :
      (s : ℕ) (bs : List AddrInfo) (v : World K)
      → Returns (Performed (some (bound s)) v) (bind_any sys s bs v)
  unfolding bind_any
  bind_any-Performed s [] v = returns record { live = refl; infos = refl; deeds = refl }
  bind_any-Performed s (b ∷ bs) v =
      bind_bool _ (perform-Performed (some (bound s)) (sys.bind s b.addr) v) (λ t p. returns p)
        (λ t p. mono (bind_any-Performed s bs t) (λ d u q. record {
          live = q.live ∙ p.live;
          infos = q.infos ∙ p.infos;
          deeds = q.deeds ∙ ap (λ ds. if d then bound s ∷ ds else ds) p.deeds;
        }))

  bind_source-Prepared :
      (source : Option (List ℕ)) (hints : Hints) (s : ℕ) (v : World K)
      → Returns (Prepared source s v.deeds v) (bind_source sys source hints s v)
  unfolding bind_source
  bind_source-Prepared none hints s v =
      returns record { live = refl; infos = refl; went = went_on refl }
  bind_source-Prepared (some source) hints s v =
      bind_option _ (getaddrinfo-Resolved sys (some source) none hints v)
        (λ t f. returns record { live = f.live; infos = f.infos; went = went_err })
        (λ bs t f.
          bind_bool _ (bind_any-Performed s bs t)
            (λ u p.
              freeaddrinfo-Prepared u proceed (p.live ∙ f.live) (p.infos ∙ f.infos)
                (went_on (p.deeds ∙ ap (λ ds. bound s ∷ ds) f.deeds)))
            (λ u p.
              freeaddrinfo-Prepared u to_ret (p.live ∙ f.live) (p.infos ∙ f.infos)
                (went_ret refl (p.deeds ∙ f.deeds))))

  nonblock-Performed :
      (nb : Bool) (s : ℕ) (v : World K)
      → Returns
          (λ b t.
            (t.live ≡ v.live)
            × (t.infos ≡ v.infos)
            × (t.deeds ≡ (if b then deed_if nb (nonblocking s) v.deeds else v.deeds)))
          ((if nb then nonblock sys s else pure true) v)
  unfolding nonblock
  nonblock-Performed false s v = returns (refl, refl, refl)
  nonblock-Performed true s v =
      mono (perform-Performed (some (nonblocking s)) _ v) (λ b t p. (p.live, p.infos, p.deeds))

  pub prepare-Prepared :
      (source : Option (List ℕ)) (nb : Bool) (hints : Hints) (s : ℕ) (v : World K)
      → Returns
          (Prepared source s (deed_if nb (nonblocking s) (reused s ∷ v.deeds)) v)
          (prepare sys source nb hints s v)
  unfolding prepare reuseaddr_enable set_int
  prepare-Prepared source nb hints s v =
      bind_bool _
        (perform-Performed (some (reused s)) (sys.setsockopt s so_reuseaddr 1 size_of_int) v)
        (λ t p.
          bind_bool _ (nonblock-Performed nb s t)
            (λ u q. mono (bind_source-Prepared source hints s u) (λ next y.
              Prepared-after (q.0 ∙ p.live) (q.1 ∙ p.infos)
                (q.2 ∙ ap (deed_if nb (nonblocking s)) p.deeds)))
            (λ u q. returns record { live = q.0 ∙ p.live; infos = q.1 ∙ p.infos; went = went_err }))
        (λ t p. returns record { live = p.live; infos = p.infos; went = went_err })
