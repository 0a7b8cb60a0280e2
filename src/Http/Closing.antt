-- ===== src/Http/Closing.antt =====
-- `graceful_teardown` of src/mcp_http.rs, up to the shutdown of the SIP transport.
use kutsu.Base.{
  ℕ, ◌≡◌, ◌∙◌, refl, ap, sym, subst, Bool, true, false, ◌||◌, Option, none, some, List, [], ◌∷◌,
  All, arith, if◌then◌else◌, Bool-cases, Option-cases, inl, inr,
}
use kutsu.Base.Bytes.{Bytes, bytes_eq, bytes_eq_iff}
use kutsu.Store.{CallRecord}
use kutsu.Queue.{PendingEntry, find, remove, remove_key}
use kutsu.Queue.Dispatch.{same_key-id, same_key_self}
use kutsu.Engine.Scheduler.{Engine, end_call, ended_queued, signal, lookup}

module _ {S V F : Type 0} where
  -- `end_call` of each record, at the time that the clock then shows.
  unfoldable pub end_all : Engine S V F → (Bytes → ℕ) → List (CallRecord V F) → Engine S V F
  end_all e clock [] = e
  end_all e clock (r ∷ rs) = end_all (end_call e r.call_id (clock r.call_id)).0 clock rs

  unfoldable pub graceful_teardown : Engine S V F → (Bytes → ℕ) → Engine S V F
  unfolding end_all
  graceful_teardown e clock = end_all e clock e.hub.shared.store.inner

module _ {S : Type 0} where
  abbrev pub Differs : PendingEntry S → PendingEntry S → Type 0
  Differs x y = bytes_eq x.call_id y.call_id ≡ false

  -- No call is queued twice.
  abbrev pub IsDistinct : List (PendingEntry S) → Type 0
  IsDistinct [] = Unit
  IsDistinct (x ∷ q) = All (Differs x) q × IsDistinct q

  unfoldable pub without : List (PendingEntry S) → Bytes → List (PendingEntry S)
  without [] id = []
  without (x ∷ q) id = if bytes_eq x.call_id id then without q id else x ∷ without q id

  pub find-id :
      (q : List (PendingEntry S)) (id : Bytes) (x : PendingEntry S)
      → find q id ≡ some x
      → x.call_id ≡ id
  unfolding find
  find-id [] id x h = cc
  find-id (y ∷ q) id x h = ground (arith, h, find-id q id x, bytes_eq_iff y.call_id id)

  without-distinct :
      (x : PendingEntry S) (q : List (PendingEntry S)) → All (Differs x) q → without q x.call_id ≡ q
  unfolding without
  without-distinct x [] h = refl
  without-distinct x (y ∷ q) h = ground (
    arith,
    h.0,
    bytes_eq_iff y.call_id x.call_id,
    bytes_eq_iff x.call_id y.call_id,
    without-distinct x q h.1,
  )

  pub without-find : (q : List (PendingEntry S)) (id : Bytes) → find q id ≡ none → without q id ≡ q
  unfolding without find
  without-find [] id h = refl
  without-find (y ∷ q) id h = ground (arith, h, without-find q id)

  remove_key-found :
      (y : PendingEntry S) (q : List (PendingEntry S)) (id : Bytes) (x : PendingEntry S)
      → All (Differs y) q
      → y.call_id ≡ id
      → find (y ∷ q) id ≡ some x
      → remove_key (y ∷ q) x ≡ without (y ∷ q) id
  unfolding remove_key without find
  remove_key-found y q id x d e h =
      ground (arith, h, e, bytes_eq_iff y.call_id id, same_key_self y, without-distinct y q d)

  pub remove_key-without :
      (q : List (PendingEntry S)) (id : Bytes) (x : PendingEntry S)
      → IsDistinct q
      → find q id ≡ some x
      → remove_key q x ≡ without q id
  unfolding remove_key without find
  remove_key-without [] id x d h = cc
  remove_key-without (y ∷ q) id x d h = elim (Bool-cases (bytes_eq y.call_id id)) [
    | inl same ↦ remove_key-found y q id x d.0 ((bytes_eq_iff y.call_id id).0 same) h
    | inr other ↦
        ground (arith, h, other, same_key-id y x, find-id q id x, remove_key-without q id x d.1)
  ]

  All-without :
      (P : PendingEntry S → Type 0) (q : List (PendingEntry S)) (id : Bytes)
      → All P q
      → All P (without q id)
  unfolding without
  All-without P [] id h = tt
  All-without P (x ∷ q) id h = elim (Bool-cases (bytes_eq x.call_id id)) [
    | inl y ↦ rw y (All-without P q id h.1)
    | inr y ↦ rw y (h.0, All-without P q id h.1)
  ]

  pub without-IsDistinct :
      (q : List (PendingEntry S)) (id : Bytes) → IsDistinct q → IsDistinct (without q id)
  unfolding without
  without-IsDistinct [] id d = tt
  without-IsDistinct (x ∷ q) id d = elim (Bool-cases (bytes_eq x.call_id id)) [
    | inl y ↦ rw y (without-IsDistinct q id d.1)
    | inr y ↦ rw y (All-without (Differs x) q id d.0, without-IsDistinct q id d.1)
  ]

  none-without :
      (q : List (PendingEntry S)) (id : Bytes)
      → All (λ x. bytes_eq x.call_id id ≡ false) (without q id)
  unfolding without
  none-without [] id = tt
  none-without (x ∷ q) id = elim (Bool-cases (bytes_eq x.call_id id)) [
    | inl y ↦ rw y (none-without q id)
    | inr y ↦ rw y (y, none-without q id)
  ]

module _ {S V F : Type 0} where
  pub queue-signal :
      (e : Engine S V F) (id : Bytes) (o : Option ℕ) → (signal e id o).0.hub.queue ≡ e.hub.queue
  unfolding signal
  queue-signal e id none = refl
  queue-signal e id (some ch) = refl

  pub queue-ended :
      (e : Engine S V F) (id : Bytes) (now : ℕ)
      (p : Option (PendingEntry S) × List (PendingEntry S))
      → remove e.hub.queue id ≡ p
      → (end_call e id now).0.hub.queue ≡ (ended_queued e id now p).0.hub.queue
  unfolding end_call
  queue-ended e id now p h = ap (λ p. (ended_queued e id now p).0.hub.queue) h

  pub queue-end_call :
      (e : Engine S V F) (id : Bytes) (now : ℕ)
      → IsDistinct e.hub.queue
      → (end_call e id now).0.hub.queue ≡ without e.hub.queue id
  unfolding ended_queued remove
  queue-end_call e id now d = elim (Option-cases (find e.hub.queue id)) [
    | inl h ↦
        queue-ended e id now (none, e.hub.queue) (ground (arith, h))
        ∙ queue-signal e id (lookup e.cancels id)
        ∙ sym (without-find e.hub.queue id h)
    | inr (x, h) ↦
        queue-ended e id now (some x, remove_key e.hub.queue x) (ground (arith, h))
        ∙ remove_key-without e.hub.queue id x d h
  ]

module _ {V F : Type 0} where
  -- Whether a call is among the records.
  unfoldable pub is_recorded : List (CallRecord V F) → Bytes → Bool
  is_recorded [] id = false
  is_recorded (r ∷ rs) id = bytes_eq id r.call_id || is_recorded rs id

module _ {S V F : Type 0} where
  unfoldable pub without_all : List (PendingEntry S) → List (CallRecord V F) → List (PendingEntry S)
  without_all q [] = q
  without_all q (r ∷ rs) = without_all (without q r.call_id) rs

  pub queue-end_all :
      (e : Engine S V F) (clock : Bytes → ℕ) (rs : List (CallRecord V F))
      → IsDistinct e.hub.queue
      → (end_all e clock rs).hub.queue ≡ without_all e.hub.queue rs
  unfolding end_all without_all
  queue-end_all e clock [] d = refl
  queue-end_all e clock (r ∷ rs) d =
      let q = queue-end_call e r.call_id (clock r.call_id) d in
      queue-end_all (end_call e r.call_id (clock r.call_id)).0 clock rs
        (subst IsDistinct (sym q) (without-IsDistinct e.hub.queue r.call_id d))
      ∙ ap (λ q'. without_all q' rs) q

  recorded-without :
      (r : CallRecord V F) (rs : List (CallRecord V F)) (q : List (PendingEntry S))
      → All (λ x. is_recorded (r ∷ rs) x.call_id ≡ true) q
      → All (λ x. is_recorded rs x.call_id ≡ true) (without q r.call_id)
  unfolding without is_recorded
  recorded-without r rs [] h = tt
  recorded-without r rs (x ∷ q) h = elim (Bool-cases (bytes_eq x.call_id r.call_id)) [
    | inl y ↦ rw y (recorded-without r rs q h.1)
    | inr y ↦ rw y (ground (arith, h.0, y), recorded-without r rs q h.1)
  ]

  pub without_all-recorded :
      (q : List (PendingEntry S)) (rs : List (CallRecord V F))
      → All (λ x. is_recorded rs x.call_id ≡ true) q
      → without_all q rs ≡ []
  unfolding without_all is_recorded
  without_all-recorded [] [] h = refl
  without_all-recorded (x ∷ q) [] h = absurd (ground (arith, h.0))
  without_all-recorded q (r ∷ rs) h =
      without_all-recorded (without q r.call_id) rs (recorded-without r rs q h)
