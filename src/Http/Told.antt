-- ===== src/Http/Told.antt =====
-- Every call is told of the end of the server: `graceful_teardown` of src/mcp_http.rs.
use kutsu.Base.{
  ℕ, ◌≡◌, ◌∙◌, refl, ap, sym, subst, Bool, true, false, not, ◌||◌, ◌==◌, Option, none, some, List,
  [], ◌∷◌, All, arith, Bool-cases, Option-cases, inl, inr,
}
use kutsu.Base.Bytes.{Bytes, bytes_eq, bytes_eq_iff, bytes_eq_refl}
use kutsu.Store.{CallRecord}
use kutsu.Queue.{PendingEntry, find, remove}
use kutsu.Engine.Scheduler.{Engine, end_call, ended_queued, signal, lookup, delete, is_held}
use kutsu.Http.Closing.{
  end_all, graceful_teardown, IsDistinct, without, queue-end_all, without_all-recorded,
  queue-end_call, is_recorded, without-IsDistinct,
}

unfoldable pub is_signalled : List ℕ → ℕ → Bool
is_signalled [] ch = false
is_signalled (c ∷ cs) ch = (c == ch) || is_signalled cs ch

lookup-delete_other :
    (m : List (Bytes × ℕ)) (id other : Bytes)
    → bytes_eq id other ≡ false
    → lookup (delete m other) id ≡ lookup m id
unfolding lookup delete
lookup-delete_other [] id other h = refl
lookup-delete_other ((k, c) ∷ m) id other h =
    ground (arith, h, lookup-delete_other m id other h, bytes_eq_iff k id, bytes_eq_iff k other)

module _ {S : Type 0} where
  find-without :
      (q : List (PendingEntry S)) (id other : Bytes)
      → find q id ≡ none
      → find (without q other) id ≡ none
  unfolding find without
  find-without [] id other h = refl
  find-without (x ∷ q) id other h = ground (arith, h, find-without q id other)

module _ {S V F : Type 0} where
  -- A call that runs and can still be told: its sender is registered and its task holds the receiver.
  pub record IsLive (e : Engine S V F) (id : Bytes) (ch : ℕ) : Type 0 where
    pub unqueued : find e.hub.queue id ≡ none
    pub registered : lookup e.cancels id ≡ some ch
    pub held : is_held e.tasks ch ≡ true

  signalled-ended :
      (e : Engine S V F) (id : Bytes) (now ch : ℕ)
      (p : Option (PendingEntry S) × List (PendingEntry S))
      → is_signalled e.signalled ch ≡ true
      → is_signalled (ended_queued e id now p).0.signalled ch ≡ true
  unfolding ended_queued signal is_signalled
  signalled-ended e id now ch (some x, rest) h = h
  signalled-ended e id now ch (none, rest) h = elim (Option-cases (lookup e.cancels id)) [
    | inl n ↦ rw n h
    | inr (c, n) ↦ rw n (ground (arith, h))
  ]

  signalled-end_all :
      (e : Engine S V F) (clock : Bytes → ℕ) (rs : List (CallRecord V F)) (ch : ℕ)
      → is_signalled e.signalled ch ≡ true
      → is_signalled (end_all e clock rs).signalled ch ≡ true
  unfolding end_all end_call
  signalled-end_all e clock [] ch h = h
  signalled-end_all e clock (r ∷ rs) ch h =
      signalled-end_all (end_call e r.call_id (clock r.call_id)).0 clock rs ch
        (signalled-ended e r.call_id (clock r.call_id) ch (remove e.hub.queue r.call_id) h)

  told :
      (e : Engine S V F) (id : Bytes) (now ch : ℕ)
      → IsLive e id ch
      → is_signalled (end_call e id now).0.signalled ch ≡ true
  unfolding end_call remove ended_queued signal is_signalled
  told e id now ch l = ground (arith, l.unqueued, l.registered, l.held)

  live_ended :
      (e : Engine S V F) (id other : Bytes) (now ch : ℕ)
      (p : Option (PendingEntry S) × List (PendingEntry S))
      → bytes_eq id other ≡ false
      → (lookup (ended_queued e other now p).0.cancels id ≡ lookup e.cancels id)
        × ((ended_queued e other now p).0.tasks ≡ e.tasks)
  unfolding ended_queued signal
  live_ended e id other now ch (some x, rest) h = (refl, refl)
  live_ended e id other now ch (none, rest) h = elim (Option-cases (lookup e.cancels other)) [
    | inl n ↦ rw n (refl, refl)
    | inr (c, n) ↦ rw n (lookup-delete_other e.cancels id other h, refl)
  ]

  IsLive-end_call :
      (e : Engine S V F) (id other : Bytes) (now ch : ℕ)
      → bytes_eq id other ≡ false
      → IsDistinct e.hub.queue
      → IsLive e id ch
      → IsLive (end_call e other now).0 id ch
  unfolding end_call
  IsLive-end_call e id other now ch h d l =
      let (c, t) = live_ended e id other now ch (remove e.hub.queue other) h in
      record {
        unqueued =
            ap (λ q. find q id) (queue-end_call e other now d)
            ∙ find-without e.hub.queue id other l.unqueued;
        registered = c ∙ l.registered;
        held = ap (λ ts. is_held ts ch) t ∙ l.held;
      }

  end_all-told :
      (e : Engine S V F) (clock : Bytes → ℕ) (rs : List (CallRecord V F)) (id : Bytes) (ch : ℕ)
      → is_recorded rs id ≡ true
      → IsDistinct e.hub.queue
      → IsLive e id ch
      → is_signalled (end_all e clock rs).signalled ch ≡ true
  unfolding end_all is_recorded
  end_all-told e clock [] id ch h d l = absurd (ground (arith, h))
  end_all-told e clock (r ∷ rs) id ch h d l =
      let now = clock r.call_id in
      elim (Bool-cases (bytes_eq id r.call_id)) [
        | inl same ↦ signalled-end_all (end_call e r.call_id now).0 clock rs ch (
            told e r.call_id now ch
              (subst (λ k. IsLive e k ch) ((bytes_eq_iff id r.call_id).0 same) l))
        | inr other ↦
            end_all-told (end_call e r.call_id now).0 clock rs id ch (ground (arith, h, other))
              (subst IsDistinct (sym (queue-end_call e r.call_id now d))
                (without-IsDistinct e.hub.queue r.call_id d))
              (IsLive-end_call e id r.call_id now ch other d l)
      ]

  -- What becomes of a call, by its place in the queue and its cancel sender before: the channel of
  -- one that runs was signalled, if its task still holds the receiver.
  abbrev pub IsTold : Engine S V F → Engine S V F → Option (PendingEntry S) → Option ℕ → Type 0
  IsTold e e' (some x) o = e'.hub.queue ≡ []
  IsTold e e' none none = e'.hub.queue ≡ []
  IsTold e e' none (some ch) = not (is_held e.tasks ch) || is_signalled e'.signalled ch ≡ true

  end_all-IsTold :
      (e : Engine S V F) (clock : Bytes → ℕ) (rs : List (CallRecord V F)) (id : Bytes)
      (x : Option (PendingEntry S)) (o : Option ℕ)
      → is_recorded rs id ≡ true
      → IsDistinct e.hub.queue
      → find e.hub.queue id ≡ x
      → lookup e.cancels id ≡ o
      → (end_all e clock rs).hub.queue ≡ []
      → IsTold e (end_all e clock rs) x o
  end_all-IsTold e clock rs id (some x) o r d f l q = q
  end_all-IsTold e clock rs id none none r d f l q = q
  end_all-IsTold e clock rs id none (some ch) r d f l q = elim (Bool-cases (is_held e.tasks ch)) [
    | inl y ↦
        rw y (end_all-told e clock rs id ch r d (record { unqueued = f; registered = l; held = y }))
    | inr y ↦ rw y refl
  ]

  All-IsTold :
      (e : Engine S V F) (clock : Bytes → ℕ) (rs rs' : List (CallRecord V F))
      → All (λ r. is_recorded rs r.call_id ≡ true) rs'
      → IsDistinct e.hub.queue
      → (end_all e clock rs).hub.queue ≡ []
      → All
          (λ r.
            IsTold e (end_all e clock rs) (find e.hub.queue r.call_id) (lookup e.cancels r.call_id))
          rs'
  All-IsTold e clock rs [] h d q = tt
  All-IsTold e clock rs (r ∷ rs') h d q =
      (end_all-IsTold e clock rs r.call_id _ _ h.0 d refl refl q, All-IsTold e clock rs rs' h.1 d q)

module _ {V F : Type 0} where
  recorded_still :
      (r : CallRecord V F) (rs rs' : List (CallRecord V F))
      → All (λ x. is_recorded rs x.call_id ≡ true) rs'
      → All (λ x. is_recorded (r ∷ rs) x.call_id ≡ true) rs'
  unfolding is_recorded
  recorded_still r rs [] h = tt
  recorded_still r rs (x ∷ rs') h = (ground (arith, h.0), recorded_still r rs rs' h.1)

  recorded-All : (rs : List (CallRecord V F)) → All (λ x. is_recorded rs x.call_id ≡ true) rs
  unfolding is_recorded
  recorded-All [] = tt
  recorded-All (r ∷ rs) =
      (ground (arith, bytes_eq_refl r.call_id), recorded_still r rs rs (recorded-All rs))

-- When the server ends, with no call queued twice and none without a record, nothing is left in
-- the queue, and each call on record that is not queued and has a cancel sender was sent the
-- signal, if its task still holds the receiver.
pub graceful_teardown-IsTold :
    {S V F : Type 0} (e : Engine S V F) (clock : Bytes → ℕ)
    → IsDistinct e.hub.queue
    → All (λ x. is_recorded e.hub.shared.store.inner x.call_id ≡ true) e.hub.queue
    → ((graceful_teardown e clock).hub.queue ≡ [])
      × All
          (λ r.
            IsTold e
              (graceful_teardown e clock)
              (find e.hub.queue r.call_id)
              (lookup e.cancels r.call_id))
          e.hub.shared.store.inner
unfolding graceful_teardown
graceful_teardown-IsTold e clock d h =
    let rs = e.hub.shared.store.inner in
    let q = queue-end_all e clock rs d ∙ without_all-recorded e.hub.queue rs h in
    (q, All-IsTold e clock rs rs (recorded-All rs) d q)
