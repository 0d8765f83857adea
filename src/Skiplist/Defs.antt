-- ===== src/Skiplist/Defs.antt =====
-- The operations of src/skiplist.h, for any number of levels. A node is an address; its members
-- `score` and `forward` are maps from addresses, `forward` one map for each level. The header of a
-- list is a node whose score is never read.
use libep.Base.{
  ℕ, zero, suc, ◌+◌, Bool, Option, none, some, List, [], ◌∷◌, leb, ltb, ◌==◌, if◌then◌else◌, Cmd,
  ok, fault, out_of_fuel, ◌>>=◌, ◌>>◌, pure,
}
use libep.ListHead.{Ptr, null, update}

pub record Nodes : Type 0 where
  pub score : Ptr → Option ℕ
  pub forward : ℕ → Ptr → Option Ptr

unfoldable pub get_score : Ptr → Cmd Nodes ℕ
get_score p m = elim (m.score p) [ none ↦ fault | some s ↦ ok s m ]

-- `p->forward[i]`
unfoldable pub get_forward : ℕ → Ptr → Cmd Nodes Ptr
get_forward i p m = elim (m.forward i p) [ none ↦ fault | some q ↦ ok q m ]

-- The nodes with `p->forward[i]` replaced.
abbrev pub with_forward : ℕ → Ptr → Ptr → Nodes → Nodes
with_forward i p q m = record m { forward = update m.forward i (update (m.forward i) p (some q)) }

-- `p->forward[i] = q`
unfoldable pub set_forward : ℕ → Ptr → Ptr → Cmd Nodes (Unit {0})
set_forward i p q m = elim (m.forward i p) [ none ↦ fault | some _ ↦ ok tt (with_forward i p q m) ]

-- `while (x->forward[i] && test(x->forward[i]->score)) x = x->forward[i];`
unfoldable pub walk : (ℕ → Bool) → ℕ → ℕ → Ptr → Cmd Nodes Ptr
walk test zero i x = λ _. out_of_fuel
walk test (suc k) i x = do
  y ← get_forward i x
  if y == null then pure x else do s ← get_score y; if test s then walk test k i y else pure x

-- `bzero(node); node->score = score` for a new object at `node`, with `levels` pointers.
unfoldable pub node_init : (levels : ℕ) → Ptr → ℕ → Nodes → Nodes
node_init levels node s m = record {
  score = update m.score node (some s);
  forward = λ i. if ltb i levels then update (m.forward i) node (some null) else m.forward i;
}

-- `skiplist_init`: `bzero` of the list, which is its header.
abbrev pub init : (levels : ℕ) → (sl : Ptr) → Nodes → Nodes
init levels sl m = node_init levels sl 0 m

-- The while loop of `random_level`: one more for each draw that passes, until one does not.
-- `passes r` is `(r & 0xFFFF) < (p * 0xFFFF)`, and the list is what `random` returns, call by call;
-- the rest of it is for later calls.
unfoldable pub random_level : (ℕ → Bool) → List ℕ → ℕ → Option (ℕ × List ℕ)
random_level passes [] level = none
random_level passes (r ∷ draws) level =
    let more = random_level passes draws (level + 1) in
    if passes r then more else some (level, draws)

-- The inner loop of `delete`: `none` if the node was not found, or the node in front of it.
unfoldable pub find : (node : Ptr) (s : ℕ) → ℕ → ℕ → Ptr → Cmd Nodes (Option Ptr)
find node s zero i y = λ _. out_of_fuel
find node s (suc k) i y = do
  z ← get_forward i y
  if z == null then pure none else do
    t ← get_score z
    if t == s then (if z == node then pure (some y) else find node s k i z) else pure none

module _ (fuel : ℕ) where
  -- Both loops of `insert`, which run `i` from the top down: above the node's height the pointer
  -- is cleared, below it the node is linked in. `n` is `i + 1`.
  unfoldable pub insert_from : (height : ℕ) (node : Ptr) (s : ℕ) → ℕ → Ptr → Cmd Nodes (Unit {0})
  insert_from height node s zero x = pure tt
  insert_from height node s (suc i) x = do
    x' ← walk (λ t. leb t s) fuel i x
    (if ltb i height
        then (do next ← get_forward i x'; set_forward i node next; set_forward i x' node)
        else set_forward i node null)
    insert_from height node s i x'

  -- `l` is what `random_level` returned.
  unfoldable pub insert : (levels l : ℕ) → (sl node : Ptr) → Cmd Nodes (Unit {0})
  insert levels l sl node = do
    s ← get_score node
    insert_from (if ltb levels l then levels else l) node s levels sl

  unfoldable pub delete_from : (node : Ptr) (s : ℕ) → ℕ → Ptr → Cmd Nodes (Unit {0})
  delete_from node s zero x = pure tt
  delete_from node s (suc i) x = do
    x' ← walk (λ t. ltb t s) fuel i x
    found ← find node s fuel i x'
    elim found [
      | none ↦ delete_from node s i x'
      | some y ↦ do next ← get_forward i node; set_forward i y next; delete_from node s i y
    ]

  unfoldable pub delete : (levels : ℕ) → (sl node : Ptr) → Cmd Nodes (Unit {0})
  delete levels sl node = do s ← get_score node; delete_from node s levels sl

  -- The for loop of `extract_lte`; it returns `last`.
  unfoldable pub extract_from : (sl : Ptr) (s : ℕ) → ℕ → Ptr → Cmd Nodes Ptr
  extract_from sl s zero last = pure last
  extract_from sl s (suc i) last = do
    last' ← walk (λ t. leb t s) fuel i last
    next ← get_forward i last'
    set_forward i sl next
    extract_from sl s i last'

  unfoldable pub extract_lte : (levels : ℕ) → (sl : Ptr) (s : ℕ) → Cmd Nodes Ptr
  extract_lte levels sl s = do
    first ← get_forward 0 sl
    if first == null then pure null else do
      last ← extract_from sl s levels sl
      if last == sl then pure null else do set_forward 0 last null; pure first

-- `while (--i >= 0) sl->header.forward[i] = ret->forward[i];`
unfoldable pub shift_from : (sl ret : Ptr) → ℕ → Cmd Nodes (Unit {0})
shift_from sl ret zero = pure tt
shift_from sl ret (suc i) = do next ← get_forward i ret; set_forward i sl next; shift_from sl ret i

unfoldable pub shift : (levels : ℕ) → (sl : Ptr) → Cmd Nodes Ptr
shift levels sl = do
  ret ← get_forward 0 sl
  if ret == null then pure null else do shift_from sl ret levels; pure ret

module _ (fuel : ℕ) where
  -- The for loop of `extract`: it returns `prev` and `last`.
  unfoldable pub extract_range_from : (min max : ℕ) → ℕ → (prev last : Ptr) → Cmd Nodes (Ptr × Ptr)
  extract_range_from min max zero prev last = pure (prev, last)
  extract_range_from min max (suc i) prev last = do
    prev' ← walk (λ t. ltb t min) fuel i prev
    next ← get_forward i prev'
    last' ←
        (if last == null
          then (if next == null
              then pure null
              else do s ← get_score next; pure (if leb min s then prev' else null))
          else pure last)
    (if last' == null then extract_range_from min max i prev' last' else do
      last'' ← walk (λ t. leb t max) fuel i last'
      after ← get_forward i last''
      set_forward i prev' after
      extract_range_from min max i prev' last'')

  unfoldable pub extract : (levels : ℕ) → (sl : Ptr) (min max : ℕ) → Cmd Nodes Ptr
  extract levels sl min max = do
    (prev, last) ← extract_range_from min max levels sl null
    first ← get_forward 0 prev
    s ← get_score first
    (if leb min s
        then (do ret ← get_forward 0 prev; set_forward 0 last null; pure ret)
        else pure null)

-- The loop of `skiplist_for_each`, from `node`; it returns the nodes that its body sees.
unfoldable pub for_each_from : (fuel : ℕ) → (node : Ptr) → Cmd Nodes (List Ptr)
for_each_from zero node = λ _. out_of_fuel
for_each_from (suc k) node =
    if node == null
    then pure []
    else do next ← get_forward 0 node; rest ← for_each_from k next; pure (node ∷ rest)

unfoldable pub for_each : (fuel : ℕ) → (sl : Ptr) → Cmd Nodes (List Ptr)
for_each fuel sl = do first ← get_forward 0 sl; for_each_from fuel first
