-- ===== src/Store/Eviction.antt =====
-- What `finalize` of src/state.rs forgets: at most the cap of ended records stay, the oldest go.
use kutsu.Base.{
  ℕ, suc, ◌+◌, ◌-◌, ◌≤◌, ◌<◌, ◌≡◌, refl, sym, ap, ◌∙◌, inl, inr, Bool, true, false, not, ◌&&◌, ◌||◌,
  Option, List, [], ◌∷◌, ◌++◌, leb, if◌then◌else◌, length, take, drop, All, length-drop,
  take-append-drop, arith, Bool-cases,
}
use kutsu.Base.Bytes.{Bytes, bytes_eq, bytes_eq_refl}
use kutsu.Disposition.{Disposition}
use kutsu.Store.{
  CallRecord, CallStore, ended_pairs, remove, remove_all, insert_by_seq, sort_by_seq, victims,
  evict_ended_over_cap, finalize,
}

-- How many pairs pass a test.
abbrev pub count : (ℕ × Bytes → Bool) → List (ℕ × Bytes) → ℕ
count p [] = 0
count p (x ∷ xs) = (if p x then 1 else 0) + count p xs

count-insert :
    (p : ℕ × Bytes → Bool) (x : ℕ × Bytes) (xs : List (ℕ × Bytes))
    → count p (insert_by_seq x xs) ≡ count p (x ∷ xs)
unfolding insert_by_seq
count-insert p x [] = refl
count-insert p x (y ∷ ys) = ground (arith, count-insert p x ys)

pub count-sort :
    (p : ℕ × Bytes → Bool) (xs : List (ℕ × Bytes)) → count p (sort_by_seq xs) ≡ count p xs
unfolding sort_by_seq
count-sort p [] = refl
count-sort p (x ∷ xs) = omega (arith, count-insert p x (sort_by_seq xs), count-sort p xs)

length-insert :
    (x : ℕ × Bytes) (xs : List (ℕ × Bytes)) → length (insert_by_seq x xs) ≡ suc (length xs)
unfolding insert_by_seq
length-insert x [] = refl
length-insert x (y ∷ ys) = ground (arith, length-insert x ys)

pub length-sort : (xs : List (ℕ × Bytes)) → length (sort_by_seq xs) ≡ length xs
unfolding sort_by_seq
length-sort [] = refl
length-sort (x ∷ xs) = omega (arith, length-insert x (sort_by_seq xs), length-sort xs)

count-append :
    (p : ℕ × Bytes → Bool) (xs ys : List (ℕ × Bytes)) → count p (xs ++ ys) ≡ count p xs + count p ys
count-append p [] ys = omega arith
count-append p (x ∷ xs) ys = omega (arith, count-append p xs ys)

pub count-split :
    (p : ℕ × Bytes → Bool) (k : ℕ) (xs : List (ℕ × Bytes))
    → count p (take k xs) + count p (drop k xs) ≡ count p xs
count-split p k xs =
    sym (count-append p (take k xs) (drop k xs)) ∙ ap (count p) (take-append-drop k xs)

pub count-le : (p : ℕ × Bytes → Bool) (xs : List (ℕ × Bytes)) → count p xs ≤ length xs
count-le p [] = omega arith
count-le p (x ∷ xs) = ground (arith, count-le p xs)

pub count_none :
    (p : ℕ × Bytes → Bool) (xs : List (ℕ × Bytes)) → All (λ x. p x ≡ false) xs → count p xs ≡ 0
count_none p [] all = refl
count_none p (x ∷ xs) all = ground (arith, count_none p xs all.1)

-- Is `k` the id of one of the pairs?
abbrev pub named : List (ℕ × Bytes) → Bytes → Bool
named [] k = false
named (x ∷ xs) k = bytes_eq k x.1 || named xs k

named_self :
    (xs : List (ℕ × Bytes)) (ys : List (ℕ × Bytes))
    → ((k : Bytes) → named xs k ≡ true → named ys k ≡ true)
    → All (λ x. not (named ys x.1) ≡ false) xs
named_self [] ys h = tt
named_self (x ∷ xs) ys h =
    (ground (arith, h x.1, bytes_eq_refl x.1), named_self xs ys (λ k e. h k (ground arith)))

module _ {V F : Type 0} where
  ended_pairs-remove :
      (m : List (CallRecord V F)) (k : Bytes) (p : ℕ × Bytes → Bool)
      → count p (ended_pairs (remove m k))
        ≡ count (λ x. not (bytes_eq x.1 k) && p x) (ended_pairs m)
  unfolding ended_pairs remove
  ended_pairs-remove [] k p = refl
  ended_pairs-remove (r ∷ m) k p = ground (arith, ended_pairs-remove m k p)

count_ext :
    (p q : ℕ × Bytes → Bool) (xs : List (ℕ × Bytes))
    → ((x : ℕ × Bytes) → p x ≡ q x)
    → count p xs ≡ count q xs
count_ext p q [] h = refl
count_ext p q (x ∷ xs) h = ground (arith, h x, count_ext p q xs h)

length-count : (xs : List (ℕ × Bytes)) → length xs ≡ count (λ x. true) xs
length-count [] = refl
length-count (x ∷ xs) = omega (arith, length-count xs)

count_survivors :
    (vs xs : List (ℕ × Bytes)) (k : ℕ)
    → vs ≡ take k xs
    → count (λ x. not (named vs x.1) && true) xs ≤ length (drop k xs)
count_survivors vs xs k e = omega (
  arith,
  count-split (λ x. not (named vs x.1) && true) k xs,
  count_none (λ x. not (named vs x.1) && true) (take k xs) (rw (← e) (gone vs vs (λ j h. h))),
  count-le (λ x. not (named vs x.1) && true) (drop k xs),
)
  where
    gone :
        (ys zs : List (ℕ × Bytes))
        → ((j : Bytes) → named ys j ≡ true → named zs j ≡ true)
        → All (λ (x : ℕ × Bytes). (not (named zs x.1) && true) ≡ false) ys
    gone [] zs h = tt
    gone (y ∷ ys) zs h =
        (ground (arith, h y.1, bytes_eq_refl y.1), gone ys zs (λ j g. h j (ground arith)))

not_or_and : (a b c : Bool) → (not a && (not b && c)) ≡ (not (a || b) && c)
not_or_and true b c = refl
not_or_and false b c = refl

module _ {V F : Type 0} where
  ended_pairs-remove_all :
      (vs : List (ℕ × Bytes)) (m : List (CallRecord V F)) (p : ℕ × Bytes → Bool)
      → count p (ended_pairs (remove_all m vs))
        ≡ count (λ x. not (named vs x.1) && p x) (ended_pairs m)
  unfolding remove_all
  ended_pairs-remove_all [] m p = refl
  ended_pairs-remove_all ((n, k) ∷ vs) m p =
      ended_pairs-remove_all vs (remove m k) p
      ∙ ended_pairs-remove m k (λ x. not (named vs x.1) && p x)
      ∙ count_ext _ _ (ended_pairs m) (λ x. not_or_and (bytes_eq x.1 k) (named vs x.1) (p x))

  -- However the store got here, after an eviction at a cap of at least 1 no more than the cap of
  -- ended records are held.
  ended-evict :
      (m : List (CallRecord V F)) (cap : ℕ)
      → 0 < cap
      → length (ended_pairs (evict_ended_over_cap m cap)) ≤ cap
  unfolding evict_ended_over_cap
  ended-evict m cap pos = elim (Bool-cases (leb (length (ended_pairs m)) cap)) [
    | inl fits ↦ ground arith
    | inr over ↦ ground (arith, over_cap)
  ]
    where
      over_cap : length (ended_pairs (remove_all m (victims m cap))) ≤ cap
      over_cap = omega (
        arith,
        length-count (ended_pairs (remove_all m (victims m cap))),
        ended_pairs-remove_all (victims m cap) m (λ x. true),
        count-sort (λ x. not (named (victims m cap) x.1) && true) (ended_pairs m),
        count_survivors (victims m cap) (sort_by_seq (ended_pairs m)) (length (ended_pairs m) - cap)
            refl,
        length-drop (length (ended_pairs m) - cap) (sort_by_seq (ended_pairs m)),
        length-sort (ended_pairs m),
      )

  -- After any call is finalized in a store with a cap, no more than the cap of ended records are
  -- held.
  ended-finalize :
      (s : CallStore V F) (call_id : Bytes) (d : Disposition) (goal : Option V)
      (error : Option Bytes) (ended_ms : ℕ)
      → 0 < s.max_history
      → length (ended_pairs (finalize s call_id d goal error ended_ms).inner) ≤ s.max_history
  unfolding finalize
  ended-finalize s call_id d goal error ended_ms pos = ended-evict _ s.max_history pos
