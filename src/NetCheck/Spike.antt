-- ===== src/NetCheck/Spike.antt =====
-- The drop of the slowest sample in `summarize` (src/net_check.rs).
use kutsu.Base.{
  ℕ, suc, ◌-◌, ◌≡◌, ◌≤◌, ◌<◌, ap, sym, subst, ◌∙◌, refl, List, [], ◌∷◌, ◌++◌, arith, All, length,
  take, length-append,
}
use kutsu.NetCheck.{Stats, NetworkHealth, sort, insert_sorted, trimmed, percentiles, summarize, at}

-- Appending a sample no smaller than the others to the sorted ones keeps them sorted.
insert-last :
    (x y : ℕ) (ys : List ℕ)
    → x < y
    → insert_sorted x (ys ++ (y ∷ [])) ≡ insert_sorted x ys ++ (y ∷ [])
unfolding insert_sorted
insert-last x y [] h = ground arith
insert-last x y (z ∷ ys) h = ground (arith, insert-last x y ys)

last-insert : (x : ℕ) (ys : List ℕ) → All (λ y. y < x) ys → insert_sorted x ys ≡ ys ++ (x ∷ [])
unfolding insert_sorted
last-insert x [] h = refl
last-insert x (y ∷ ys) h = ground (arith, last-insert x ys h.1, h.0)

All-insert :
    (x y : ℕ) (ys : List ℕ) → y < x → All (λ z. z < x) ys → All (λ z. z < x) (insert_sorted y ys)
unfolding insert_sorted
All-insert x y [] h k = (h, k)
All-insert x y (z ∷ ys) h k = ground (arith, All-insert x y ys h k.1)

All-sort : (x : ℕ) (ys : List ℕ) → All (λ z. z < x) ys → All (λ z. z < x) (sort ys)
unfolding sort
All-sort x [] h = h
All-sort x (y ∷ ys) h = All-insert x y (sort ys) h.0 (All-sort x ys h.1)

sort-max :
    (x : ℕ) (xs ys : List ℕ)
    → All (λ y. y < x) xs
    → All (λ y. y < x) ys
    → sort (xs ++ (x ∷ ys)) ≡ sort (xs ++ ys) ++ (x ∷ [])
unfolding sort
sort-max x [] ys hx hy = last-insert x (sort ys) (All-sort x ys hy)
sort-max x (z ∷ xs) ys hx hy =
    ap (insert_sorted z) (sort-max x xs ys hx.1 hy) ∙ insert-last z x _ hx.0

length-insert : (x : ℕ) (xs : List ℕ) → length (insert_sorted x xs) ≡ suc (length xs)
unfolding insert_sorted
length-insert x [] = refl
length-insert x (y ∷ ys) = ground (arith, length-insert x ys)

length-sort : (xs : List ℕ) → length (sort xs) ≡ length xs
unfolding sort
length-sort [] = refl
length-sort (x ∷ xs) = omega (arith, length-insert x (sort xs), length-sort xs)

take-init : (xs ys : List ℕ) → take (length xs) (xs ++ ys) ≡ xs
take-init [] ys = refl
take-init (y ∷ xs) ys = ap (◌∷◌ y) (take-init xs ys)

trimmed-max : (xs : List ℕ) (x : ℕ) → 2 ≤ length xs → trimmed (xs ++ (x ∷ [])) ≡ xs
unfolding trimmed
trimmed-max xs x h = grind (arith, length-append xs (x ∷ []), take-init xs (x ∷ []))

-- The two records agree in all that the gate reads.
pub record SameGate {F : Type 0} (a b : NetworkHealth F) : Type 0 where
  same_p50 : a.rtt_p50_ms ≡ b.rtt_p50_ms
  same_p95 : a.rtt_p95_ms ≡ b.rtt_p95_ms
  same_jitter : a.jitter_ms ≡ b.jitter_ms
  same_loss : a.loss_pct ≡ b.loss_pct

module _ (s : Stats) where
  cons-summarize :
      (rtts : List ℕ) (lost total : ℕ)
      → 0 < length rtts
      → summarize s rtts lost total ≡ percentiles s (sort rtts) lost total
  unfolding summarize
  cons-summarize [] lost total h = ground arith
  cons-summarize (x ∷ xs) lost total h = refl

  gate-percentiles :
      (xs : List ℕ) (x y lost total : ℕ)
      → 2 ≤ length xs
      → SameGate
          (percentiles s (xs ++ (x ∷ [])) lost total)
          (percentiles s (xs ++ (y ∷ [])) lost total)
  unfolding percentiles
  gate-percentiles xs x y lost total h = record {
    same_p50 = ap (λ l. at l (s.at50 (length l))) same_sample;
    same_p95 = ap (λ l. at l (s.at95 (length l))) same_sample;
    same_jitter = ap (λ l. at l (s.at95 (length l)) - at l (s.at50 (length l))) same_sample;
    same_loss = refl;
  }
    where
      same_sample : trimmed (xs ++ (x ∷ [])) ≡ trimmed (xs ++ (y ∷ []))
      same_sample = trimmed-max xs x h ∙ sym (trimmed-max xs y h)

  -- A lone spike cannot change the verdict: whatever the slowest ping measured (above all the
  -- others, at any place among at least three), the percentiles, the jitter and the loss that the
  -- gate reads are the same.
  pub summarize-spike :
      (xs ys : List ℕ) (x y lost total : ℕ)
      → 2 ≤ length (xs ++ ys)
      → All (λ z. z < x) xs
      → All (λ z. z < x) ys
      → All (λ z. z < y) xs
      → All (λ z. z < y) ys
      → SameGate (summarize s (xs ++ (x ∷ ys)) lost total) (summarize s (xs ++ (y ∷ ys)) lost total)
  summarize-spike xs ys x y lost total h ax ay bx by' =
      subst (λ l. SameGate (summarize s (xs ++ (x ∷ ys)) lost total) l) (sym (spiked y bx by'))
        (subst (λ l. SameGate l (percentiles s (sort (xs ++ ys) ++ (y ∷ [])) lost total))
          (sym (spiked x ax ay))
          (gate-percentiles (sort (xs ++ ys)) x y lost total
            (omega (arith, h, length-sort (xs ++ ys)))))
    where
      spiked :
          (z : ℕ)
          → All (λ a. a < z) xs
          → All (λ a. a < z) ys
          → summarize s (xs ++ (z ∷ ys)) lost total
            ≡ percentiles s (sort (xs ++ ys) ++ (z ∷ [])) lost total
      spiked z az bz =
          cons-summarize (xs ++ (z ∷ ys)) lost total (omega (arith, length-append xs (z ∷ ys)))
          ∙ ap (λ l. percentiles s l lost total) (sort-max z xs ys az bz)
