-- ===== src/Timer/Clear.antt =====
-- `ep_timer_clear` of src/ep_timer.h.
use libep.Base.{
  ℕ, ◌+◌, ◌<◌, ◌≡◌, ◌∙◌, ap, sym, subst, List, ◌∷◌, ◌++◌, ◌∉◌, Distinct, length, ok, some, none,
  Returns, returns, bind, ∉_remove,
}
use libep.ListHead.{Ptr, update}
use libep.Skiplist.Defs.{delete}
use libep.Skiplist.Entries.{Entry, addrs, addrs-append, IsSkiplist}
use libep.Skiplist.Removed.{delete-IsSkiplist}
use libep.Timer.Defs.{Timers, Info, levels, without, destroy, clear}
use libep.Timer.Memory.{without-IsSkiplist, on_nodes-Returns}

pub destroy-ok :
    (p : Ptr) (s : Timers) {v : Info}
    → s.info p ≡ some v
    → destroy p s ≡ ok tt (record s { info = update s.info p none; nodes = without p s.nodes })
unfolding destroy
destroy-ok p s h = rw (h, destroy)

node_out :
    (sl : Ptr) (lo : List Entry) (e : Entry) (hi : List Entry)
    → Distinct (sl ∷ addrs (lo ++ e ∷ hi))
    → e.addr ∉ (sl ∷ addrs (lo ++ hi))
node_out sl lo e hi d =
    subst (λ l. e.addr ∉ (sl ∷ l)) (sym (addrs-append lo hi))
      (∉_remove e.addr (sl ∷ addrs lo) (addrs hi)
        (subst (λ l. Distinct (sl ∷ l)) (addrs-append lo (e ∷ hi)) d))

-- `ep_timer_clear` of a timer that is set ends with the other timers in their order, gives the
-- timer's memory back, and changes no other timer's callback.
pub clear-IsSkiplist :
    (fuel : ℕ) (sl : Ptr) (s : Timers) (lo : List Entry) (e : Entry) (hi : List Entry) {v : Info}
    → IsSkiplist levels s.nodes sl (lo ++ e ∷ hi)
    → s.info e.addr ≡ some v
    → length lo + length hi < fuel
    → Returns
        (λ _ t. IsSkiplist levels t.nodes sl (lo ++ hi) × (t.info ≡ update s.info e.addr none))
        (clear fuel sl e.addr s)
unfolding clear
clear-IsSkiplist fuel sl s lo e hi i there enough =
    bind
      (on_nodes-Returns (delete fuel levels sl e.addr) s
        (delete-IsSkiplist fuel levels s.nodes sl lo e hi i enough))
      (λ _ t q.
        let same : t.info ≡ s.info = ap (λ z. z.info) q.1 in
        rw (destroy-ok e.addr t (ap (λ f. f e.addr) same ∙ there)) (
          returns (
            without-IsSkiplist levels t.nodes sl e.addr (lo ++ hi) (node_out sl lo e hi i.distinct)
                q.0,
            ap (λ f. update f e.addr none) same,
          )))
