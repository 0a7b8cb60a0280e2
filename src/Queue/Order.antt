-- ===== src/Queue/Order.antt =====
-- The queue of src/queue.rs holds its entries in dispatch order, and each operation is what the
-- trait's comments say of it.
use kutsu.Base.{ℕ, ◌≡◌, inl, inr, true, false, List, [], ◌∷◌, arith, All, Option-cases, Bool-cases}
use kutsu.Base.Bytes.{Bytes, bytes_eq_iff, bytes_lt_irrefl, bytes_lt_trans, bytes_lt_total}
use kutsu.Queue.{PendingEntry, before, same_key, push, pop_eligible, find, remove_key, remove}

module _ {S : Type 0} where
  before_trans :
      (a b c : PendingEntry S) → before a b ≡ true → before b c ≡ true → before a c ≡ true
  unfolding before
  before_trans a b c h k = ground (arith, bytes_lt_trans a.call_id b.call_id c.call_id)

  before_irrefl : (a : PendingEntry S) → before a a ≡ false
  unfolding before
  before_irrefl a = ground (arith, bytes_lt_irrefl a.call_id)

  after_of_not :
      (a b : PendingEntry S) → before a b ≡ false → same_key a b ≡ false → before b a ≡ true
  unfolding before same_key
  after_of_not a b h k = ground (arith, bytes_lt_total a.call_id b.call_id)

  before_same :
      (a b c : PendingEntry S) → same_key a b ≡ true → before b c ≡ true → before a c ≡ true
  unfolding before same_key
  before_same a b c h k = ground (arith, (bytes_eq_iff a.call_id b.call_id).0)

  before_same_right :
      (a b c : PendingEntry S) → same_key b c ≡ true → before a c ≡ true → before a b ≡ true
  unfolding before same_key
  before_same_right a b c h k = ground (arith, (bytes_eq_iff b.call_id c.call_id).0)

  -- Keys strictly increase along the list.
  abbrev pub IsSorted : List (PendingEntry S) → Type 0
  IsSorted [] = Unit {0}
  IsSorted (x ∷ q) = All (λ y. before x y ≡ true) q × IsSorted q

  All-trans :
      (a b : PendingEntry S) (q : List (PendingEntry S))
      → before a b ≡ true
      → All (λ y. before b y ≡ true) q
      → All (λ y. before a y ≡ true) q
  All-trans a b [] h all = tt
  All-trans a b (x ∷ q) h all = (before_trans a b x h all.0, All-trans a b q h all.1)

  All-same :
      (a b : PendingEntry S) (q : List (PendingEntry S))
      → same_key a b ≡ true
      → All (λ y. before b y ≡ true) q
      → All (λ y. before a y ≡ true) q
  All-same a b [] h all = tt
  All-same a b (x ∷ q) h all = (before_same a b x h all.0, All-same a b q h all.1)

  All-push :
      (a e : PendingEntry S) (q : List (PendingEntry S))
      → before a e ≡ true
      → All (λ y. before a y ≡ true) q
      → All (λ y. before a y ≡ true) (push q e)
  unfolding push
  All-push a e [] h all = (h, tt)
  All-push a e (x ∷ q) h all = ground (arith, All-push a e q h)

  push-IsSorted :
      (q : List (PendingEntry S)) (e : PendingEntry S) → IsSorted q → IsSorted (push q e)
  unfolding push
  push-IsSorted [] e s = (tt, tt)
  push-IsSorted (x ∷ q) e s = ground (
    arith,
    push-IsSorted q e s.1,
    All-trans e x q,
    All-same e x q,
    All-push x e q,
    after_of_not e x,
  )

  All-remove_key {κ} :
      (P : PendingEntry S → Type κ) (q : List (PendingEntry S)) (e : PendingEntry S)
      → All P q
      → All P (remove_key q e)
  unfolding remove_key
  All-remove_key P [] e all = all
  All-remove_key P (x ∷ q) e all = elim (Bool-cases (same_key x e)) [
    | inl h ↦ rw h all.1
    | inr h ↦ rw h (all.0, All-remove_key P q e all.1)
  ]

  remove_key-IsSorted :
      (q : List (PendingEntry S)) (e : PendingEntry S) → IsSorted q → IsSorted (remove_key q e)
  unfolding remove_key
  remove_key-IsSorted [] e s = s
  remove_key-IsSorted (x ∷ q) e s = elim (Bool-cases (same_key x e)) [
    | inl h ↦ rw h s.1
    | inr h ↦ rw h (All-remove_key _ q e s.0, remove_key-IsSorted q e s.1)
  ]

  pop_eligible-IsSorted :
      (q : List (PendingEntry S)) (now_ms : ℕ) → IsSorted q → IsSorted (pop_eligible q now_ms).1
  unfolding pop_eligible
  pop_eligible-IsSorted [] now_ms s = s
  pop_eligible-IsSorted (x ∷ q) now_ms s = ground arith

  remove-IsSorted :
      (q : List (PendingEntry S)) (call_id : Bytes) → IsSorted q → IsSorted (remove q call_id).1
  unfolding remove
  remove-IsSorted q call_id s = elim (Option-cases (find q call_id)) [
    | inl e ↦ rw (e, remove) s
    | inr (x, e) ↦ rw (e, remove) (remove_key-IsSorted q x s)
  ]

  -- Every operation that changes the queue keeps the keys strictly increasing in
  -- (eligible_at_ms, call_id).
  pub queue-IsSorted :
      (q : List (PendingEntry S)) (e : PendingEntry S) (now_ms : ℕ) (call_id : Bytes)
      → IsSorted q
      → IsSorted (push q e) × IsSorted (pop_eligible q now_ms).1 × IsSorted (remove q call_id).1
  queue-IsSorted q e now_ms call_id s =
      (push-IsSorted q e s, pop_eligible-IsSorted q now_ms s, remove-IsSorted q call_id s)
