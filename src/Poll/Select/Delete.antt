-- ===== src/Poll/Select/Delete.antt =====
-- `ep_select_del` of src/ep_select.h.
use libep.Base.{ℕ, zero, suc, ◌≡◌, ◌≢◌, refl, true, false, arith}
use libep.Base.Int.{pos, minus_one, exceeds, is_nat, add_one}
use libep.Poll.Select.Defs.{FdSet, fd_put, State, lower, del}
use libep.Poll.Select.Invariant.{IsValid, Sets, is_watched}

-- The search finds no descriptor in an empty set.
lower-none : (fds : FdSet) (n : ℕ) → ((i : ℕ) → fds i ≡ false) → lower fds n ≡ minus_one
unfolding lower
lower-none fds zero none = refl
lower-none fds (suc n) none = rw (none n) (lower-none fds n none)

module _ (s : State) (fd : ℕ) where
  -- `ep_select_del` returns 0, stops watching the descriptor, and leaves the sets alone at the
  -- others, and the data.
  pub del_unwatches :
      let (ret, t) = del s fd in
      (ret ≡ pos 0)
      × Sets s.rfds t.rfds fd false
      × Sets s.wfds t.wfds fd false
      × Sets s.efds t.efds fd false
      × (t.values ≡ s.values)
  unfolding del fd_put
  del_unwatches = (refl, λ i. refl, λ i. refl, λ i. refl, refl)

  module _ (size : ℕ) (v : IsValid size s) where
    still_unused : (i : ℕ) → fd_put false fd s.fds i ≡ false
    unfolding fd_put
    still_unused i = ground (arith, v.unused i)

    covered-del :
        is_nat fd s.maxfd ≡ false
        → (i : ℕ) → is_watched (del s fd).1 i ≡ true
        → exceeds i (del s fd).1.maxfd ≡ false
    unfolding del fd_put
    covered-del other i w = ground (arith, v.covered i)

    -- `ep_select_del` of a descriptor other than `maxfd` keeps the invariant.
    pub del-IsValid : is_nat fd s.maxfd ≡ false → IsValid size (del s fd).1
    del-IsValid other = record {
      covered = covered-del other;
      bounded = let b = v.bounded in unfold del in ground arith;
      values_size = unfold del in v.values_size;
      ee_size = unfold del in v.ee_size;
      unused = unfold del in still_unused;
    }

    -- `ep_select_del` of the descriptor `maxfd` makes the next `select` look at no descriptor:
    -- `maxfd` becomes -1, since the search is in the set `fds`, where nothing is ever put. Every
    -- other watched descriptor stays in the watched sets, and is out of reach.
    pub del_maxfd_blinds :
        s.maxfd ≡ pos fd
        → (i : ℕ) → i ≢ fd
        → is_watched s i ≡ true
        → (is_watched (del s fd).1 i ≡ true)
          × (exceeds i (del s fd).1.maxfd ≡ true)
          × (add_one (del s fd).1.maxfd ≡ pos 0)
    unfolding del fd_put
    del_maxfd_blinds e i ne w =
        let blind : (del s fd).1.maxfd ≡ minus_one =
          ground (arith, lower-none (fd_put false fd s.fds) fd still_unused) in
        (ground arith, rw blind, rw blind)
