-- ===== src/Uplink/Missing.antt =====
-- What `lost` of src/sip/uplink.rs tells of the packets that did not arrive.
use kutsu.Base.{
  ℕ, zero, suc, ◌+◌, ◌-◌, ◌%◌, ◌≤◌, ◌<◌, ◌≡◌, refl, ap, ◌∙◌, Bool, true, false, ◌||◌, inl, inr,
  Bool-cases, ltb, ◌==◌, if◌then◌else◌, List, [], ◌∷◌, map, length, arith, max, All,
}
use kutsu.Uplink.{new, snapshot, run}
use kutsu.Uplink.Extended.{highest, late, InWindow, snapshot-run}

abbrev pub arrived : ℕ → List ℕ → Bool
arrived k [] = false
arrived k (e ∷ es) = (e == k) || arrived k es

-- How many of the `n` numbers from `lo` on did not arrive.
abbrev pub missing : ℕ → ℕ → List ℕ → ℕ
missing lo zero es = 0
missing lo (suc n) es = (if arrived lo es then 0 else 1) + missing (suc lo) n es

-- How many arrivals are numbered before `lo`, or come again later.
abbrev pub spare : ℕ → List ℕ → ℕ
spare lo [] = 0
spare lo (e ∷ es) = (if ltb e lo || arrived e es then 1 else 0) + spare lo es

missing_none : (n lo : ℕ) → missing lo n [] ≡ n
missing_none zero lo = refl
missing_none (suc n) lo = omega (arith, missing_none n (suc lo))

missing_before : (n lo e : ℕ) (es : List ℕ) → e < lo → missing lo n (e ∷ es) ≡ missing lo n es
missing_before zero lo e es h = refl
missing_before (suc n) lo e es h = ground (arith, missing_before n (suc lo) e es (omega (arith, h)))

missing_again :
    (n lo e : ℕ) (es : List ℕ) → arrived e es ≡ true → missing lo n (e ∷ es) ≡ missing lo n es
missing_again zero lo e es h = refl
missing_again (suc n) lo e es h = elim (Bool-cases (e == lo)) [
  | inl y ↦
      let same : e ≡ lo = ground (arith, y) in
      ground (arith, y, ap (λ k. arrived k es) same, missing_again n (suc lo) e es h)
  | inr k ↦ ground (arith, k, missing_again n (suc lo) e es h)
]

missing_fresh :
    (n lo e : ℕ) (es : List ℕ)
    → lo ≤ e
    → e < lo + n
    → arrived e es ≡ false
    → missing lo n (e ∷ es) + 1 ≡ missing lo n es
missing_fresh zero lo e es le lt h = absurd (omega (arith, le, lt))
missing_fresh (suc n) lo e es le lt h = elim (Bool-cases (e == lo)) [
  | inl y ↦
      let same : e ≡ lo = ground (arith, y) in
      ground (
        arith,
        y,
        h,
        ap (λ k. arrived k es) same,
        missing_before n (suc lo) e es (omega (arith, same)),
      )
  | inr k ↦
      ground (arith, k, missing_fresh n (suc lo) e es (ground (arith, le, k)) (omega (arith, lt)) h)
]

-- Each of the numbers is missing or has one arrival that is not spare.
missing-length :
    (es : List ℕ) (n lo : ℕ)
    → All (λ e. e < lo + n) es
    → missing lo n es + length es ≡ n + spare lo es
missing-length [] n lo all = omega (arith, missing_none n lo)
missing-length (e ∷ es) n lo all = elim (Bool-cases (ltb e lo)) [
  | inl y ↦
      ground (arith, y, missing_before n lo e es (ground (arith, y)), missing-length es n lo all.1)
  | inr k ↦ elim (Bool-cases (arrived e es)) [
    | inl y ↦ ground (arith, y, missing_again n lo e es y, missing-length es n lo all.1)
    | inr m ↦ ground (
      arith,
      k,
      m,
      missing_fresh n lo e es (ground (arith, k)) all.0 m,
      missing-length es n lo all.1,
    )
  ]
]

highest_above : (es : List ℕ) (m : ℕ) → m ≤ highest m es
highest_above [] m = omega arith
highest_above (e ∷ es) m = omega (arith, highest_above es (max m e))

arrivals_below : (es : List ℕ) (m k : ℕ) → highest m es < k → All (λ e. e < k) es
arrivals_below [] m k h = tt
arrivals_below (e ∷ es) m k h =
    (omega (arith, highest_above es (max m e), h), arrivals_below es (max m e) k h)

-- For packets whose true numbers start at `e` (below 2 ^ 16, which fixes where the numbering
-- starts) and stay within half the sequence space of the highest so far, the snapshot counts,
-- through any number of 16-bit wraps: every packet as received; those that come after a higher one
-- as reordered; and as lost the numbers from the first arrival's to the highest that never
-- arrived, but less one for each arrival that is numbered before the first or comes again later,
-- and never below 0.
pub snapshot-missing :
    (e : ℕ) (es : List ℕ)
    → e < 65536
    → InWindow e es
    → snapshot (run new (map (λ n. n % 65536) (e ∷ es))) ≡ record {
      received = length (e ∷ es);
      lost = missing e (highest e es - e + 1) (e ∷ es) - spare e (e ∷ es);
      reordered = late e es;
    }
snapshot-missing e es fits w =
    let top = highest_above es e in
    let all : All (λ k. k < e + (highest e es - e + 1)) (e ∷ es) =
      (omega arith, arrivals_below es e (e + (highest e es - e + 1)) (omega (arith, top))) in
    snapshot-run e es fits w
    ∙ ap (λ n. record { received = length (e ∷ es); lost = n; reordered = late e es })
        (omega (arith, missing-length (e ∷ es) (highest e es - e + 1) e all))
