-- ===== src/Sock/Tried.antt =====
-- The ways in which the connecting functions of src/ep_sock.h can end.
use libep.Base.{ℕ, ◌≡◌, ◌∙◌, ap, Bool, true, Option, none, some, List, ◌∷◌}
use libep.Sock.System.{World, Deed, connected}
use libep.Sock.Frame.{Owns, Owns-Performed, Performed}
use libep.Sock.Connect.{einprogress, Next}
use libep.Sock.Prepare.{is_some, prepared, Prepared}

module _ {K : Type 0} where
  -- The result from the world `w`, and the world at the end. It is -1, with the descriptors of `w`
  -- open; or one more is open, which is returned: it is connected, after it was set up as asked
  -- for; or its connection is under way, if that is `allowed`; or it could not be bound to the
  -- source.
  pub data Outcome (source : Option (List ℕ)) (nb allowed : Bool) (w : World K)
      : Option ℕ → World K → Type 0 where
    refused : {t : World K} → t.live ≡ w.live → Outcome source nb allowed w none t
    established :
        {fd : ℕ} (ds : List Deed) {t : World K}
        → t.live ≡ fd ∷ w.live
        → t.deeds ≡ connected fd ∷ prepared source nb fd ds
        → Outcome source nb allowed w (some fd) t
    pending :
        {fd : ℕ} (ds : List Deed) {t : World K}
        → t.live ≡ fd ∷ w.live
        → t.deeds ≡ prepared source nb fd ds
        → t.errno ≡ einprogress
        → allowed ≡ true
        → Outcome source nb allowed w (some fd) t
    unbound :
        {fd : ℕ} (ds : List Deed) {t : World K}
        → t.live ≡ fd ∷ w.live
        → t.deeds ≡ prepared none nb fd ds
        → is_some source ≡ true
        → Outcome source nb allowed w (some fd) t

  -- As many address lists are held as before.
  pub record Tried (source : Option (List ℕ)) (nb allowed : Bool) (w : World K) (r : Option ℕ)
      (t : World K) : Type 0 where
    pub infos : t.infos ≡ w.infos
    pub outcome : Outcome source nb allowed w r t

  -- What holds of the socket after the body, whatever it did.
  pub Owns-Prepared :
      {source : Option (List ℕ)} {fd : ℕ} {ds : List Deed} {next : Next} {w v t : World K}
      → Owns w (some fd) v
      → Prepared source fd ds v next t
      → Owns w (some fd) t
  Owns-Prepared o p = record { live = p.live ∙ o.live; infos = p.infos ∙ o.infos }

module _ {K : Type 0} {source : Option (List ℕ)} {nb allowed : Bool} where
  pub Outcome-from :
      {w v t : World K} {r : Option ℕ}
      → v.live ≡ w.live
      → Outcome source nb allowed v r t
      → Outcome source nb allowed w r t
  Outcome-from h (refused l) = refused (l ∙ h)
  Outcome-from h (established {fd} ds l d) = established ds (l ∙ ap (λ l. fd ∷ l) h) d
  Outcome-from h (pending {fd} ds l d e a) = pending ds (l ∙ ap (λ l. fd ∷ l) h) d e a
  Outcome-from h (unbound {fd} ds l d s) = unbound ds (l ∙ ap (λ l. fd ∷ l) h) d s

  pub Tried-from :
      {w v t : World K} {r : Option ℕ}
      → v.live ≡ w.live
      → v.infos ≡ w.infos
      → Tried source nb allowed v r t
      → Tried source nb allowed w r t
  Tried-from h i o = record { infos = o.infos ∙ i; outcome = Outcome-from h o.outcome }

  pub Outcome-freed :
      {w t : World K} {r : Option ℕ} (n : ℕ)
      → Outcome source nb allowed w r t
      → Outcome source nb allowed w r (record t { infos = n })
  Outcome-freed n (refused l) = refused l
  Outcome-freed n (established ds l d) = established ds l d
  Outcome-freed n (pending ds l d e a) = pending ds l d e a
  Outcome-freed n (unbound ds l d s) = unbound ds l d s

  -- The call of `connect` succeeded on the socket that was set up.
  pub connected-Tried :
      (fd : ℕ) (ds : List Deed) (w t u : World K)
      → Owns w (some fd) t
      → t.deeds ≡ prepared source nb fd ds
      → Performed (some (connected fd)) t true u
      → Tried source nb allowed w (some fd) u
  connected-Tried fd ds w t u h d c =
      let o = Owns-Performed h c in
      record {
        infos = o.infos;
        outcome = established ds o.live (c.deeds ∙ ap (λ ds. connected fd ∷ ds) d);
      }
