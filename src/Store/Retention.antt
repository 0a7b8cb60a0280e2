-- ===== src/Store/Retention.antt =====
-- Which records `finalize` of src/state.rs keeps, and which it forgets.
use kutsu.Base.{
  ℕ, zero, suc, ◌-◌, ◌≤◌, ◌<◌, ◌≡◌, ◌≢◌, refl, ◌∙◌, ◌⊎◌, inl, inr, Bool, true, false, Option, none,
  some, List, [], ◌∷◌, ltb, length, take, drop, length-drop, arith, Bool-cases,
}
use kutsu.Base.Bytes.{Bytes, bytes_eq, bytes_eq_iff, bytes_eq_sym}
use kutsu.Disposition.{Disposition}
use kutsu.Store.{
  CallRecord, CallStore, get, update, ended_pairs, remove, remove_all, sort_by_seq, victims,
  evict_ended_over_cap, end_record, finalize, call_seq, is_ended,
}
use kutsu.Store.Eviction.{count, named, count-split, count-sort, count_none, count-le, length-sort}
use kutsu.Store.Ranks.{
  IsKeyed, IsRising, sort-IsRising, sort-IsKeyed, named-sort, named-split, older-take, count-lt,
  named-take,
}
use kutsu.Store.Lookup.{
  get-remove_self, absent-remove, get-update_self, get-update_ne, get-remove_ne, IsUnique,
  update-IsUnique,
}

module _ {V F : Type 0} where
  ended_pairs-IsKeyed : (m : List (CallRecord V F)) → IsKeyed (ended_pairs m)
  unfolding ended_pairs
  ended_pairs-IsKeyed [] = tt
  ended_pairs-IsKeyed (r ∷ m) = ground (arith, ended_pairs-IsKeyed m)

  absent-remove_all :
      (vs : List (ℕ × Bytes)) (m : List (CallRecord V F)) (id : Bytes)
      → (named vs id ≡ true) ⊎ (get m id ≡ none)
      → get (remove_all m vs) id ≡ none
  unfolding remove_all
  absent-remove_all [] m id (inl h) = ground arith
  absent-remove_all [] m id (inr h) = h
  absent-remove_all ((n, k) ∷ vs) m id (inr h) =
      absent-remove_all vs (remove m k) id (inr (absent-remove m k id h))
  absent-remove_all ((n, k) ∷ vs) m id (inl h) = elim (Bool-cases (bytes_eq id k)) [
    | inl e ↦
        absent-remove_all vs (remove m k) id
          (inr (rw ((bytes_eq_iff id k).0 e) (get-remove_self m k)))
    | inr e ↦ absent-remove_all vs (remove m k) id (inl (ground arith))
  ]

  -- An ended record with at least `cap` newer ended ones beside it is among the victims.
  named-victims :
      (m : List (CallRecord V F)) (cap : ℕ) (id : Bytes)
      → cap ≤ length (ended_pairs m)
      → named (ended_pairs m) id ≡ true
      → cap ≤ count (λ x. ltb (call_seq id) x.0) (ended_pairs m)
      → named (victims m cap) id ≡ true
  unfolding victims
  named-victims m cap id le h newer = elim (Bool-cases (named (drop k sorted) id)) [
    | inl late ↦ absurd (
        omega (
          arith,
          count-split p k sorted,
          count-sort p (ended_pairs m),
          count_none p (take k sorted) (older-take k sorted id rising keyed late),
          count-lt (drop k sorted) id (keyed_drop k sorted keyed) late,
          length-drop k sorted,
          length-sort (ended_pairs m),
        ))
    | inr early ↦ ground (arith, named-split k sorted id, named-sort (ended_pairs m) id)
  ]
    where
      k : ℕ
      k = length (ended_pairs m) - cap

      sorted : List (ℕ × Bytes)
      sorted = sort_by_seq (ended_pairs m)

      p : ℕ × Bytes → Bool
      p = λ x. ltb (call_seq id) x.0

      rising : IsRising sorted
      rising = sort-IsRising (ended_pairs m)

      keyed : IsKeyed sorted
      keyed = sort-IsKeyed (ended_pairs m) (ended_pairs-IsKeyed m)

      keyed_drop : (k : ℕ) (xs : List (ℕ × Bytes)) → IsKeyed xs → IsKeyed (drop k xs)
      keyed_drop zero xs h = h
      keyed_drop (suc k) [] h = tt
      keyed_drop (suc k) (x ∷ xs) h = keyed_drop k xs h.1

  named-ended :
      (m : List (CallRecord V F)) (id : Bytes) (r : CallRecord V F)
      → get m id ≡ some r
      → is_ended r.state ≡ true
      → named (ended_pairs m) id ≡ true
  unfolding get ended_pairs
  named-ended [] id r h e = ground arith
  named-ended (x ∷ m) id r h e = ground (arith, named-ended m id r, bytes_eq_sym id x.call_id)

  get-remove_all_ne :
      (vs : List (ℕ × Bytes)) (m : List (CallRecord V F)) (id : Bytes)
      → named vs id ≡ false
      → get (remove_all m vs) id ≡ get m id
  unfolding remove_all
  get-remove_all_ne [] m id h = refl
  get-remove_all_ne ((n, k) ∷ vs) m id h =
      get-remove_all_ne vs (remove m k) id (ground arith) ∙ get-remove_ne m k id (ground arith)

  absent_not_named :
      (m : List (CallRecord V F)) (id : Bytes) → get m id ≡ none → named (ended_pairs m) id ≡ false
  unfolding get ended_pairs
  absent_not_named [] id h = refl
  absent_not_named (r ∷ m) id h = ground (arith, absent_not_named m id, bytes_eq_sym id r.call_id)

  live_not_named :
      (m : List (CallRecord V F)) (id : Bytes) (r : CallRecord V F)
      → IsUnique m
      → get m id ≡ some r
      → is_ended r.state ≡ false
      → named (ended_pairs m) id ≡ false
  unfolding get ended_pairs
  live_not_named [] id r u h e = refl
  live_not_named (x ∷ m) id r u h e = ground (
    arith,
    live_not_named m id r u.1,
    absent_not_named m id,
    bytes_eq_sym id x.call_id,
    (bytes_eq_iff x.call_id id).0,
  )

  get-evict_ne :
      (m : List (CallRecord V F)) (cap : ℕ) (id : Bytes)
      → named (ended_pairs m) id ≡ false
      → get (evict_ended_over_cap m cap) id ≡ get m id
  unfolding evict_ended_over_cap victims
  get-evict_ne m cap id h = ground (
    arith,
    get-remove_all_ne (take (length (ended_pairs m) - cap) (sort_by_seq (ended_pairs m))) m id
        (named-take _ (sort_by_seq (ended_pairs m)) id (named-sort (ended_pairs m) id ∙ h)),
  )

module _ {V F : Type 0} (s : CallStore V F) (call_id : Bytes) (d : Disposition) (goal : Option V)
    (error : Option Bytes) (ended_ms : ℕ) where
  keeps_id : (x : CallRecord V F) → (end_record d goal error ended_ms x).call_id ≡ x.call_id
  unfolding end_record
  keeps_id x = refl

  -- The store once the call is ended and before anything is evicted.
  abbrev pub ended_store : List (CallRecord V F)
  ended_store = update s.inner call_id (end_record d goal error ended_ms)

  -- A call that has not ended survives the finalizing of another, whatever the cap.
  pub finalize_spares_live :
      (j : Bytes) (r : CallRecord V F)
      → IsUnique s.inner
      → call_id ≢ j
      → get s.inner j ≡ some r
      → is_ended r.state ≡ false
      → get (finalize s call_id d goal error ended_ms).inner j ≡ some r
  unfolding finalize
  finalize_spares_live j r u ne h live =
      get-evict_ne ended_store s.max_history j
        (live_not_named ended_store j r (update-IsUnique s.inner call_id _ keeps_id u) there live)
      ∙ there
    where
      there : get ended_store j ≡ some r
      there =
          get-update_ne s.inner call_id j _ keeps_id (ground (arith, (bytes_eq_iff call_id j).0))
          ∙ h

  -- With no cap, or with room under it, the finalized call is kept as ended, with all that it
  -- was finalized with.
  pub finalize_keeps :
      (r : CallRecord V F)
      → get s.inner call_id ≡ some r
      → (s.max_history ≡ 0) ⊎ (length (ended_pairs ended_store) ≤ s.max_history)
      → get (finalize s call_id d goal error ended_ms).inner call_id
        ≡ some (end_record d goal error ended_ms r)
  unfolding finalize evict_ended_over_cap
  finalize_keeps r h room =
      ground
        (arith, get-update_self s.inner call_id (end_record d goal error ended_ms) r keeps_id h)

  -- A call is forgotten by its own finalizing as soon as as many newer calls as the cap have
  -- ended before it: its disposition, goal and transcript can never be read.
  pub finalize_forgets :
      (r : CallRecord V F)
      → get s.inner call_id ≡ some r
      → 0 < s.max_history
      → s.max_history ≤ count (λ x. ltb (call_seq call_id) x.0) (ended_pairs ended_store)
      → get (finalize s call_id d goal error ended_ms).inner call_id ≡ none
  unfolding finalize evict_ended_over_cap end_record is_ended
  finalize_forgets r h pos newer = ground (
    arith,
    count-le-ended,
    absent-remove_all (victims ended_store s.max_history) ended_store call_id (
        inl (
          named-victims ended_store s.max_history call_id (omega (arith, count-le-ended)) self
            newer)),
    crowded,
  )
    where
      self : named (ended_pairs ended_store) call_id ≡ true
      self =
          named-ended ended_store call_id (end_record d goal error ended_ms r)
            (get-update_self s.inner call_id _ r keeps_id h) refl

      count-le-ended :
          count (λ x. ltb (call_seq call_id) x.0) (ended_pairs ended_store)
          ≤ length (ended_pairs ended_store)
      count-le-ended = count-le (λ x. ltb (call_seq call_id) x.0) (ended_pairs ended_store)

      crowded : s.max_history < length (ended_pairs ended_store)
      crowded = omega (
        arith,
        newer,
        count-lt (ended_pairs ended_store) call_id (ended_pairs-IsKeyed ended_store) self,
      )
