-- ===== src/Sock/Unix.antt =====
-- How the functions of src/ep_sock.h for local sockets end: `ep_genericunixconnect` and
-- `ep_createsocket`.
use libep.Base.{
  ℕ, ◌≡◌, ◌∙◌, refl, ap, Bool, true, false, Option, none, some, List, ◌∷◌, pure, ◌>>◌, Returns,
  returns, bind, bind_bool, bind_option,
}
use libep.Sock.System.{System, World, so_reuseaddr, reused, connected, remove, close, get_errno}
use libep.Sock.Frame.{
  remove_head, Owns, Owns-Performed, open_by-Opened, close-Owns, perform-Performed,
}
use libep.Sock.Options.{size_of_int, sock_stream, set_int, reuseaddr_enable, createsocket}
use libep.Sock.Connect.{af_local, sun_path, genericunixconnect}

module _ {K : Type 0} where
  -- A new socket that was made reusable, or none.
  pub data Created (w : World K) : Option ℕ → World K → Type 0 where
    created_none : {t : World K} → Owns w none t → Created w none t
    created :
        {s : ℕ} {t : World K}
        → Owns w (some s) t
        → t.deeds ≡ reused s ∷ w.deeds
        → Created w (some s) t

  pub none-Owns : {w t : World K} → Created w none t → Owns w none t
  none-Owns (created_none o) = o

  pub some-Owns : {w t : World K} {s : ℕ} → Created w (some s) t → Owns w (some s) t
  some-Owns (created o d) = o

  pub some_deeds : {w t : World K} {s : ℕ} → Created w (some s) t → t.deeds ≡ reused s ∷ w.deeds
  some_deeds (created o d) = d

  -- The result is -1; or it is open and connected; or it is a socket that was closed again, since
  -- the connection should not block or was refused.
  pub data Ended (w : World K) (nb : Bool) : Option ℕ → World K → Type 0 where
    refused : {t : World K} → t.live ≡ w.live → Ended w nb none t
    established :
        {s : ℕ} {t : World K}
        → nb ≡ false
        → t.live ≡ s ∷ w.live
        → t.deeds ≡ connected s ∷ reused s ∷ w.deeds
        → Ended w nb (some s) t
    closed :
        {s : ℕ} {t : World K}
        → t.live ≡ w.live
        → t.deeds ≡ reused s ∷ w.deeds
        → Ended w nb (some s) t

module _ {K : Type 0} (sys : System K) where
  -- A socket that is closed before the result is returned.
  close-Returns :
      {A : Type 0} {P : A → World K → Type 0} (fd : ℕ) (a : A) (w v : World K)
      → Owns w (some fd) v
      → ((t : World K) → t.live ≡ w.live → t.deeds ≡ v.deeds → P a t)
      → Returns P ((close sys fd >> pure a) v)
  unfolding close
  close-Returns fd a w v h go = returns (go _ (ap (remove fd) h.live ∙ remove_head fd w.live) refl)

  pub createsocket-Created :
      (domain : ℕ) (w : World K) → Returns (Created w) (createsocket sys domain w)
  unfolding createsocket reuseaddr_enable set_int
  createsocket-Created domain w =
      bind_option _ (open_by-Opened (sys.socket domain sock_stream 0) w)
        (λ t o. returns (created_none o.owns))
        (λ s t o.
          bind_bool _
            (perform-Performed (some (reused s)) (sys.setsockopt s so_reuseaddr 1 size_of_int) t)
            (λ u p.
              returns
                (created (Owns-Performed o.owns p) (p.deeds ∙ ap (λ ds. reused s ∷ ds) o.deeds)))
            (λ u p.
              bind (close-Owns sys s w u (Owns-Performed o.owns p))
                (λ x y c. returns (created_none c))))

  -- `ep_genericunixconnect` ends as `Ended` says: when it should not block, what it returns is never
  -- an open socket.
  pub genericunixconnect-Ended :
      (path : List ℕ) (nb : Bool) (w : World K)
      → Returns (Ended w nb) (genericunixconnect sys path nb w)
  unfolding genericunixconnect get_errno
  genericunixconnect-Ended path true w =
      bind_option _ (createsocket-Created af_local w) (λ t c. returns (refused (none-Owns c).live))
        (λ s t c. close-Returns s (some s) w t (some-Owns c) (λ u l d. closed l (d ∙ some_deeds c)))
  genericunixconnect-Ended path false w =
      bind_option _ (createsocket-Created af_local w) (λ t c. returns (refused (none-Owns c).live))
        (λ s t c.
          bind_bool _
            (perform-Performed (some (connected s)) (sys.connect_local s (sun_path path)) t)
            (λ u p. returns (
              established refl (p.live ∙ (some-Owns c).live)
                (p.deeds ∙ ap (λ ds. connected s ∷ ds) (some_deeds c))))
            (λ u p.
              close-Returns s (some s) w u (Owns-Performed (some-Owns c) p)
                (λ x l d. closed l (d ∙ p.deeds ∙ some_deeds c))))
