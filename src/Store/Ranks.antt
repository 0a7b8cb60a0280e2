-- ===== src/Store/Ranks.antt =====
-- Lists of (number, id) pairs in the order of `evict_ended_over_cap` (src/state.rs).
use kutsu.Base.{
  ℕ, zero, suc, ◌≤◌, ◌<◌, ◌≡◌, refl, true, false, ◌||◌, List, [], ◌∷◌, ltb, length, take, drop, All,
  arith,
}
use kutsu.Base.Bytes.{Bytes, bytes_eq_iff}
use kutsu.Store.{insert_by_seq, sort_by_seq, call_seq}
use kutsu.Store.Eviction.{count, named, count-le}

-- Numbers rise along the list.
abbrev pub IsRising : List (ℕ × Bytes) → Type 0
IsRising [] = Unit {0}
IsRising (x ∷ xs) = All (λ y. x.0 ≤ y.0) xs × IsRising xs

-- Each pair's number is that of its id.
abbrev pub IsKeyed : List (ℕ × Bytes) → Type 0
IsKeyed xs = All (λ x. x.0 ≡ call_seq x.1) xs

pub All-insert :
    (n : ℕ) (x : ℕ × Bytes) (xs : List (ℕ × Bytes))
    → n ≤ x.0
    → All (λ y. n ≤ y.0) xs
    → All (λ y. n ≤ y.0) (insert_by_seq x xs)
unfolding insert_by_seq
All-insert n x [] h all = (h, tt)
All-insert n x (y ∷ ys) h all = ground (arith, All-insert n x ys h)

pub All-le :
    (m n : ℕ) (xs : List (ℕ × Bytes)) → m ≤ n → All (λ y. n ≤ y.0) xs → All (λ y. m ≤ y.0) xs
All-le m n [] h all = tt
All-le m n (x ∷ xs) h all = (omega arith, All-le m n xs h all.1)

pub insert-IsRising :
    (x : ℕ × Bytes) (xs : List (ℕ × Bytes)) → IsRising xs → IsRising (insert_by_seq x xs)
unfolding insert_by_seq
insert-IsRising x [] r = (tt, tt)
insert-IsRising x (y ∷ ys) r =
    ground (arith, insert-IsRising x ys r.1, All-insert y.0 x ys, All-le x.0 y.0 ys)

pub sort-IsRising : (xs : List (ℕ × Bytes)) → IsRising (sort_by_seq xs)
unfolding sort_by_seq
sort-IsRising [] = tt
sort-IsRising (x ∷ xs) = insert-IsRising x (sort_by_seq xs) (sort-IsRising xs)

pub insert-IsKeyed :
    (x : ℕ × Bytes) (xs : List (ℕ × Bytes))
    → x.0 ≡ call_seq x.1
    → IsKeyed xs
    → IsKeyed (insert_by_seq x xs)
unfolding insert_by_seq
insert-IsKeyed x [] h k = (h, tt)
insert-IsKeyed x (y ∷ ys) h k = ground (arith, insert-IsKeyed x ys h)

pub sort-IsKeyed : (xs : List (ℕ × Bytes)) → IsKeyed xs → IsKeyed (sort_by_seq xs)
unfolding sort_by_seq
sort-IsKeyed [] k = tt
sort-IsKeyed (x ∷ xs) k = insert-IsKeyed x (sort_by_seq xs) k.0 (sort-IsKeyed xs k.1)

pub named-insert :
    (x : ℕ × Bytes) (xs : List (ℕ × Bytes)) (id : Bytes)
    → named (insert_by_seq x xs) id ≡ named (x ∷ xs) id
unfolding insert_by_seq
named-insert x [] id = refl
named-insert x (y ∷ ys) id = ground (arith, named-insert x ys id)

pub named-sort : (xs : List (ℕ × Bytes)) (id : Bytes) → named (sort_by_seq xs) id ≡ named xs id
unfolding sort_by_seq
named-sort [] id = refl
named-sort (x ∷ xs) id = ground (arith, named-insert x (sort_by_seq xs) id, named-sort xs id)

pub named-split :
    (k : ℕ) (xs : List (ℕ × Bytes)) (id : Bytes)
    → (named (take k xs) id || named (drop k xs) id) ≡ named xs id
named-split zero xs id = refl
named-split (suc k) [] id = refl
named-split (suc k) (x ∷ xs) id = ground (arith, named-split k xs id)

-- A pair that is named bounds from above what is below every pair.
pub le-named :
    (n : ℕ) (xs : List (ℕ × Bytes)) (id : Bytes)
    → All (λ y. n ≤ y.0) xs
    → IsKeyed xs
    → named xs id ≡ true
    → n ≤ call_seq id
le-named n [] id all k h = ground arith
le-named n (x ∷ xs) id all k h = ground (arith, le-named n xs id all.1 k.1, (bytes_eq_iff id x.1).0)

-- Where a pair named past the first `k` stands, the first `k` are no newer.
pub older-take :
    (k : ℕ) (xs : List (ℕ × Bytes)) (id : Bytes)
    → IsRising xs
    → IsKeyed xs
    → named (drop k xs) id ≡ true
    → All (λ y. ltb (call_seq id) y.0 ≡ false) (take k xs)
older-take zero xs id r k h = tt
older-take (suc n) [] id r k h = tt
older-take (suc n) (x ∷ xs) id r k h =
    (ground (arith, le-named x.0 xs id r.0 k.1, named-split n xs id), older-take n xs id r.1 k.1 h)

pub count-lt :
    (xs : List (ℕ × Bytes)) (id : Bytes)
    → IsKeyed xs
    → named xs id ≡ true
    → count (λ x. ltb (call_seq id) x.0) xs < length xs
count-lt [] id k h = ground arith
count-lt (x ∷ xs) id k h =
    ground
      (arith, count-lt xs id k.1, count-le (λ y. ltb (call_seq id) y.0) xs, (bytes_eq_iff id x.1).0)

pub named-take :
    (k : ℕ) (xs : List (ℕ × Bytes)) (id : Bytes)
    → named xs id ≡ false
    → named (take k xs) id ≡ false
named-take k xs id h = ground (arith, named-split k xs id)
