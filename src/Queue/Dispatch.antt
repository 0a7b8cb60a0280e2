-- ===== src/Queue/Dispatch.antt =====
-- What a client of the queue of src/queue.rs sees: which entry leaves next, and positions.
use kutsu.Base.{
  ℕ, zero, suc, ◌+◌, ◌≤◌, ◌<◌, ◌≡◌, refl, ap, ◌≢◌, ◌⊎◌, inl, inr, true, false, Option, none, some,
  List, [], ◌∷◌, leb, arith, All, Bool-cases,
}
use kutsu.Base.Bytes.{Bytes, bytes_eq, bytes_eq_refl, bytes_eq_sym}
use kutsu.Queue.{
  PendingEntry, before, same_key, push, pop_eligible, find, remove_key, remove, position_from,
  position,
}
use kutsu.Queue.Order.{IsSorted}
use kutsu.Engine.Gates.{is_some}

module _ {S : Type 0} where
  not_yet :
      (x : PendingEntry S) (now : ℕ) (q : List (PendingEntry S))
      → now < x.eligible_at_ms
      → All (λ y. before x y ≡ true) q
      → All (λ y. now < y.eligible_at_ms) q
  unfolding before
  not_yet x now [] h all = tt
  not_yet x now (y ∷ q) h all = (ground (arith, all.0), not_yet x now q h all.1)

  -- What a pop may answer: nothing, and then nothing is due; or the first entry in dispatch
  -- order, which is due.
  abbrev pub Pops :
      List (PendingEntry S) → ℕ → Option (PendingEntry S) × List (PendingEntry S) → Type 0
  Pops q now r =
      ((r ≡ (none, q)) × All (λ y. now < y.eligible_at_ms) q)
      ⊎ ((e : PendingEntry S) × (rest : List (PendingEntry S)) × (r ≡ (some e, rest))
          × (q ≡ e ∷ rest)
          × (e.eligible_at_ms ≤ now)
          × All (λ y. before e y ≡ true) rest)

  -- From a sorted queue `pop_eligible` takes an entry exactly when one is eligible, it is the
  -- earliest by (eligible_at_ms, call_id), and the others stay as they were.
  pub pop_eligible-Pops :
      (q : List (PendingEntry S)) (now : ℕ) → IsSorted q → Pops q now (pop_eligible q now)
  unfolding pop_eligible
  pop_eligible-Pops [] now s = inl (refl, tt)
  pop_eligible-Pops (x ∷ q) now s = elim (Bool-cases (leb x.eligible_at_ms now)) [
    | inl h ↦ rw h (inr (x, q, refl, refl, ground arith, s.0))
    | inr h ↦ rw h (inl (refl, (ground arith, not_yet x now q (ground arith) s.0)))
  ]

  -- `n` pops, their entries dropped.
  pub pops : ℕ → List (PendingEntry S) → ℕ → List (PendingEntry S)
  pops zero q now = q
  pops (suc n) q now = pops n (pop_eligible q now).1 now

  position_from-cases :
      (from : ℕ) (x : PendingEntry S) (q : List (PendingEntry S)) (call_id : Bytes) (n : ℕ)
      → position_from from (x ∷ q) call_id ≡ some (from + suc n)
      → ((n ≡ 0) × (bytes_eq x.call_id call_id ≡ true))
        ⊎ ((bytes_eq x.call_id call_id ≡ false)
            × (position_from (from + 1) q call_id ≡ some (from + suc n)))
  unfolding position_from
  position_from-cases from x q call_id n h = elim (Bool-cases (bytes_eq x.call_id call_id)) [
    | inl e ↦ inl (ground arith, e)
    | inr e ↦ inr (e, ground arith)
  ]

  position_from-gt :
      (from : ℕ) (q : List (PendingEntry S)) (call_id : Bytes) (p : ℕ)
      → position_from from q call_id ≡ some p
      → from < p
  unfolding position_from
  position_from-gt from [] call_id p h = ground arith
  position_from-gt from (x ∷ q) call_id p h =
      ground (arith, position_from-gt (from + 1) q call_id p)

  position_from-pops :
      (n from : ℕ) (q : List (PendingEntry S)) (call_id : Bytes) (now : ℕ)
      → position_from from q call_id ≡ some (from + suc n)
      → All (λ y. y.eligible_at_ms ≤ now) q
      → ((pop_eligible (pops n q now) now).0 ≡ find q call_id) × (find q call_id ≢ none)
  unfolding pops pop_eligible find position_from
  position_from-pops n from [] call_id now h all = ground arith
  position_from-pops zero from (x ∷ q) call_id now h all =
      ground (arith, position_from-gt (from + 1) q call_id (from + 1))
  position_from-pops (suc n) from (x ∷ q) call_id now h all =
      ground (arith, position_from-pops n (from + 1) q call_id now)

  -- `position` counts in real dispatch order: when every entry is eligible, the call at
  -- position n + 1 is the one that the pop after n others returns.
  pub position-pops :
      (n : ℕ) (q : List (PendingEntry S)) (call_id : Bytes) (now : ℕ)
      → position q call_id ≡ some (suc n)
      → All (λ y. y.eligible_at_ms ≤ now) q
      → ((pop_eligible (pops n q now) now).0 ≡ find q call_id) × (find q call_id ≢ none)
  unfolding position
  position-pops n q call_id now h all = position_from-pops n 0 q call_id now (ground arith) all

  pub same_key-id :
      (a b : PendingEntry S) → same_key a b ≡ true → bytes_eq a.call_id b.call_id ≡ true
  unfolding same_key
  same_key-id a b h = ground arith

  pub same_key_self : (a : PendingEntry S) → same_key a a ≡ true
  unfolding same_key
  same_key_self a = ground (arith, bytes_eq_refl a.call_id)

  find-push :
      (q : List (PendingEntry S)) (e : PendingEntry S)
      → find q e.call_id ≡ none
      → find (push q e) e.call_id ≡ some e
  unfolding find push
  find-push [] e h = ground (arith, bytes_eq_refl e.call_id)
  find-push (x ∷ q) e h = ground (arith, bytes_eq_refl e.call_id, find-push q e)

  remove_key-push :
      (q : List (PendingEntry S)) (e : PendingEntry S)
      → find q e.call_id ≡ none
      → remove_key (push q e) e ≡ q
  unfolding find push remove_key
  remove_key-push [] e h = ground (arith, same_key_self e)
  remove_key-push (x ∷ q) e h = ground (
    arith,
    same_key_self e,
    same_key-id x e,
    same_key-id e x,
    bytes_eq_sym x.call_id e.call_id,
    remove_key-push q e,
  )

  -- Cancelling a call that was just enqueued under a fresh id returns its entry and gives the
  -- queue back as it was.
  pub remove-push :
      (q : List (PendingEntry S)) (e : PendingEntry S)
      → find q e.call_id ≡ none
      → remove (push q e) e.call_id ≡ (some e, q)
  unfolding remove
  remove-push q e h =
      rw (find-push q e h, remove)
        (ap (λ (r : List (PendingEntry S)). (some e, r)) (remove_key-push q e h))

  position_from-push :
      (q : List (PendingEntry S)) (e : PendingEntry S) (n : ℕ)
      → is_some (position_from n (push q e) e.call_id) ≡ true
  unfolding position_from push
  position_from-push [] e n = ground (arith, bytes_eq_refl e.call_id)
  position_from-push (x ∷ q) e n =
      ground
        (arith, bytes_eq_refl e.call_id, position_from-push q e (n + 1), position_from-push q e n)

  -- An entry that was pushed has a place in the queue.
  pub position-push :
      (q : List (PendingEntry S)) (e : PendingEntry S)
      → is_some (position (push q e) e.call_id) ≡ true
  unfolding position
  position-push q e = position_from-push q e 0

  position_from-absent :
      (q : List (PendingEntry S)) (id : Bytes) (n : ℕ)
      → find q id ≡ none
      → position_from n q id ≡ none
  unfolding position_from find
  position_from-absent [] id n h = refl
  position_from-absent (x ∷ q) id n h = ground (arith, position_from-absent q id (n + 1))

  pub position-absent :
      (q : List (PendingEntry S)) (id : Bytes) → find q id ≡ none → position q id ≡ none
  unfolding position
  position-absent q id h = position_from-absent q id 0 h
