-- ===== src/Queue.antt =====
-- src/queue.rs: the pending-call queue of the engine scheduler.
pub mod Order
pub mod Dispatch
use kutsu.Base.{
  ℕ, suc, ◌+◌, ◌≤◌, ◌<◌, ◌≡◌, Bool, true, false, ◌&&◌, ◌||◌, Option, none, some, List, [], ◌∷◌, ltb,
  leb, ◌==◌, if◌then◌else◌, length,
}
use kutsu.Base.Bytes.{Bytes, bytes_eq, bytes_lt}
use mathlib.Core.Option

-- `struct PendingEntry`, generic in the scenario that it carries along.
pub record PendingEntry (S : Type 0) : Type 0 where
  pub call_id : Bytes
  pub number : Bytes
  pub scenario : S
  pub eligible_at_ms : ℕ
  pub attempt : ℕ

-- The order of the keys (eligible_at_ms, call_id).
unfoldable pub key_lt : ℕ → Bytes → ℕ → Bytes → Bool
key_lt t i u j = ltb t u || ((t == u) && bytes_lt i j)

unfoldable pub key_eq : ℕ → Bytes → ℕ → Bytes → Bool
key_eq t i u j = (t == u) && bytes_eq i j

module _ {S : Type 0} where
  unfoldable pub before : PendingEntry S → PendingEntry S → Bool
  unfolding key_lt
  before a b = key_lt a.eligible_at_ms a.call_id b.eligible_at_ms b.call_id

  unfoldable pub same_key : PendingEntry S → PendingEntry S → Bool
  unfolding key_eq
  same_key a b = key_eq a.eligible_at_ms a.call_id b.eligible_at_ms b.call_id

  -- `BTreeMap::insert` on the map's values in key order. A key is a function of its value, so
  -- the list of values is the map; an equal key has its value replaced.
  unfoldable pub push : List (PendingEntry S) → PendingEntry S → List (PendingEntry S)
  push [] e = e ∷ []
  push (x ∷ q) e = if before e x then e ∷ x ∷ q else if same_key e x then e ∷ q else x ∷ push q e

  unfoldable pub pop_eligible :
      List (PendingEntry S) → ℕ → Option (PendingEntry S) × List (PendingEntry S)
  pop_eligible [] now_ms = (none, [])
  pop_eligible (x ∷ q) now_ms = if leb x.eligible_at_ms now_ms then (some x, q) else (none, x ∷ q)

  unfoldable pub peek_next_eligible_at : List (PendingEntry S) → Option ℕ
  peek_next_eligible_at [] = none
  peek_next_eligible_at (x ∷ q) = some x.eligible_at_ms

  -- `iter().find(..)`: the first entry, in key order, with the id.
  unfoldable pub find : List (PendingEntry S) → Bytes → Option (PendingEntry S)
  find [] call_id = none
  find (x ∷ q) call_id = if bytes_eq x.call_id call_id then some x else find q call_id

  -- `BTreeMap::remove` of the key of `e`.
  unfoldable pub remove_key : List (PendingEntry S) → PendingEntry S → List (PendingEntry S)
  remove_key [] e = []
  remove_key (x ∷ q) e = if same_key x e then q else x ∷ remove_key q e

  unfoldable pub remove :
      List (PendingEntry S) → Bytes → Option (PendingEntry S) × List (PendingEntry S)
  remove q call_id = elim (find q call_id) [ none ↦ (none, q) | some e ↦ (some e, remove_key q e) ]

  unfoldable pub is_empty : List (PendingEntry S) → Bool
  is_empty q = length q == 0

  -- `values().position(..).map(|i| i + 1)`, with `i` counting up from `from`.
  position_from : ℕ → List (PendingEntry S) → Bytes → Option ℕ
  position_from from [] call_id = none
  position_from from (x ∷ q) call_id =
      if bytes_eq x.call_id call_id then some (from + 1) else position_from (from + 1) q call_id

  unfoldable pub position : List (PendingEntry S) → Bytes → Option ℕ
  unfolding position_from
  position q call_id = position_from 0 q call_id
