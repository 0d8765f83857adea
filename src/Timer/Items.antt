-- ===== src/Timer/Items.antt =====
-- The due timers that `ep_timer_execute` of src/ep_timer.h goes through, and what becomes of them.
use libep.Base.{ℕ, suc, ◌<◌, ◌≡◌, refl, ap, List, [], ◌∷◌, length, some, Option, true, false}
use libep.Base.Int.{ℤ}
use libep.ListHead.{Ptr}
use libep.Skiplist.Defs.{Nodes}
use libep.Skiplist.Entries.{Entry}
use libep.Timer.Defs.{Info, levels, stops, lowered}
use libep.Timer.Periodic.{Settles, info_after}

-- A timer: its entry, and what its node holds.
abbrev pub Item : Type 0
Item = Entry × Info

abbrev pub entries : List Item → List Entry
entries [] = []
entries ((e, i) ∷ xs) = e ∷ entries xs

pub length-entries : (xs : List Item) → length (entries xs) ≡ length xs
length-entries [] = refl
length-entries ((e, i) ∷ xs) = ap suc (length-entries xs)

abbrev pub calls_of : List Item → List (ℕ × ℕ)
calls_of [] = []
calls_of ((e, i) ∷ xs) = (i.cb, i.arg) ∷ calls_of xs

abbrev pub Holds : (Ptr → Option Info) → List Item → Type 0
Holds f [] = Unit
Holds f ((e, i) ∷ xs) = (f e.addr ≡ some i) × Holds f xs

-- The memory of those that ran once is given back.
abbrev pub infos_after : List Item → (Ptr → Option Info) → Ptr → Option Info
infos_after [] f = f
infos_after ((e, i) ∷ xs) f = infos_after xs (info_after e i f)

-- What becomes of the timers `es` while the loop goes through the due ones.
pub data Rounds : ℤ → List ℕ → List Item → List Entry → List Entry → Type 0 where
  over : {max : ℤ} {draws : List ℕ} {es : List Entry} → Rounds max draws [] es es
  cut_short :
      {max : ℤ} {draws rest : List ℕ} {e : Entry} {i : Info} {xs : List Item} {es next : List Entry}
      → stops max ≡ true
      → Settles draws e i es next rest
      → Rounds max draws ((e, i) ∷ xs) es next
  round :
      {max : ℤ} {draws rest : List ℕ} {e : Entry} {i : Info} {xs : List Item}
      {es next final : List Entry}
      → stops max ≡ false
      → Settles draws e i es next rest
      → Rounds (lowered max) rest xs next final
      → Rounds max draws ((e, i) ∷ xs) es final

-- The nodes have all their pointers.
abbrev pub Slots : Nodes → List Entry → Type 0
Slots m [] = Unit
Slots m (e ∷ es) = ((j : ℕ) → j < levels → (v : Ptr) × (m.forward j e.addr ≡ some v)) × Slots m es
