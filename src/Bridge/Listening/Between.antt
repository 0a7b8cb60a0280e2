-- ===== src/Bridge/Listening/Between.antt =====
-- `up_8k_16k` of src/bridge/resample.rs interpolates.
use kutsu.Base.{
  ℕ, zero, suc, ◌+◌, ◌-◌, ◌/◌, ◌≤◌, ◌≡◌, ◌⊎◌, inl, inr, refl, ap, Bool, List, [], ◌∷◌, arith, ltb,
  if◌then◌else◌, Bool-cases,
}
use kutsu.G711.{ℤ, pos, negsuc, negative}
use kutsu.Bridge.Listening.{up_8k_16k, ◌+ℤ◌, half}

-- What stands at the even places.
unfoldable pub evens : List ℤ → List ℤ
evens [] = []
evens (x ∷ []) = x ∷ []
evens (x ∷ y ∷ rest) = x ∷ evens rest

pub evens-up : (pcm : List ℤ) → evens (up_8k_16k pcm) ≡ pcm
unfolding evens up_8k_16k
evens-up [] = refl
evens-up (cur ∷ []) = refl
evens-up (cur ∷ next ∷ rest) = ap (◌∷◌ cur) (evens-up (next ∷ rest))

infix 50 ◌≤ℤ◌
abbrev pub ◌≤ℤ◌ : ℤ → ℤ → Type 0
pos a ≤ℤ pos b = a ≤ b
negsuc a ≤ℤ pos b = Unit
pos a ≤ℤ negsuc b = ⊥
negsuc a ≤ℤ negsuc b = b ≤ a

abbrev pub IsBetween : ℤ → ℤ → ℤ → Type 0
IsBetween a b m = ((a ≤ℤ m) × (m ≤ℤ b)) ⊎ ((b ≤ℤ m) × (m ≤ℤ a))

half-negative : (k : ℕ) → half (negative k) ≡ negative (k / 2)
unfolding half negative
half-negative zero = refl
half-negative (suc k) = ap negative (ground arith)

above-negative : (k b : ℕ) → k ≤ b + 1 → negsuc b ≤ℤ negative k
unfolding negative
above-negative zero b h = tt
above-negative (suc k) b h = omega arith

below-negative : (k a : ℕ) → a + 1 ≤ k → negative k ≤ℤ negsuc a
unfolding negative
below-negative zero a h = absurd (omega arith)
below-negative (suc k) a h = omega arith

negative_below : (k b : ℕ) → negative k ≤ℤ pos b
unfolding negative
negative_below zero b = omega arith
negative_below (suc k) b = tt

-- The sum of a - (b + 1), halved.
mixed : (a b : ℕ) → Bool → ℤ
mixed a b less = half (if less then pos (a - b - 1) else negative (b + 1 - a))

mixed-IsBetween : (a b : ℕ) → (negsuc b ≤ℤ mixed a b (ltb b a)) × (mixed a b (ltb b a) ≤ℤ pos a)
unfolding mixed half
mixed-IsBetween a b = elim (Bool-cases (ltb b a)) [
  | inl y ↦ rw y (tt, ground arith)
  | inr y ↦
      rw (y, half-negative (b + 1 - a))
        (above-negative ((b + 1 - a) / 2) b (ground arith), negative_below ((b + 1 - a) / 2) a)
]

-- Two integers and what is half of their sum.
half-IsBetween : (a b : ℤ) → IsBetween a b (half (a +ℤ b))
unfolding half ◌+ℤ◌ mixed
half-IsBetween (pos a) (pos b) = ground arith
half-IsBetween (negsuc a) (negsuc b) = elim (Bool-cases (ltb a b)) [
  | inl y ↦ inr (above-negative _ b (ground (arith, y)), below-negative _ a (ground (arith, y)))
  | inr y ↦ inl (above-negative _ a (ground (arith, y)), below-negative _ b (ground (arith, y)))
]
half-IsBetween (pos a) (negsuc b) = inr (mixed-IsBetween a b)
half-IsBetween (negsuc a) (pos b) = inl (mixed-IsBetween b a)

half-double : (a : ℤ) → half (a +ℤ a) ≡ a
unfolding half ◌+ℤ◌ negative
half-double (pos a) = ap pos (ground arith)
half-double (negsuc a) = let e : (a + a + 1 + 1) / 2 ≡ suc a = ground arith in ap negative e

-- A frame at twice the rate: each sample, and after it one that lies between it and the next; after
-- the last, the last again.
abbrev pub Interpolates : List ℤ → List ℤ → Type 0
Interpolates [] [] = Unit
Interpolates [] (x ∷ out) = ⊥
Interpolates (cur ∷ rest) [] = ⊥
Interpolates (cur ∷ rest) (x ∷ []) = ⊥
Interpolates (cur ∷ []) (x ∷ m ∷ out) = (x ≡ cur) × (m ≡ cur) × (out ≡ [])
Interpolates (cur ∷ next ∷ rest) (x ∷ m ∷ out) =
    (x ≡ cur) × IsBetween cur next m × Interpolates (next ∷ rest) out

-- Upsampling interpolates every frame: each sample is followed by one between it and the next,
-- though halves are rounded toward zero, and the last one by itself.
pub up_8k_16k-Interpolates : (pcm : List ℤ) → Interpolates pcm (up_8k_16k pcm)
unfolding up_8k_16k
up_8k_16k-Interpolates [] = tt
up_8k_16k-Interpolates (cur ∷ []) = (refl, half-double cur, refl)
up_8k_16k-Interpolates (cur ∷ next ∷ rest) =
    (refl, half-IsBetween cur next, up_8k_16k-Interpolates (next ∷ rest))
