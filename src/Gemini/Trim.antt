-- ===== src/Gemini/Trim.antt =====
-- What `str::trim` leaves of a text (src/gemini_live.rs).
use kutsu.Base.{
  ℕ, zero, suc, ◌≡◌, ◌≤◌, ◌<◌, refl, sym, ap, subst, ◌∙◌, Bool, true, false, ◌&&◌, ◌⊎◌, inl, inr,
  Bool-cases, List, [], ◌∷◌, ◌++◌, arith, length, drop, length-append,
}
use kutsu.Base.Bytes.{Bytes}
use kutsu.Gemini.{space_byte, space_pair, space_triple, leading, trailing, strip, reverse}
use kutsu.Gemini.Backwards.{append_assoc, concat}

-- Whether these bytes are one character of white space.
unfoldable pub is_space : Bytes → Bool
unfolding space_byte space_pair space_triple
is_space (a ∷ []) = space_byte a
is_space (a ∷ b ∷ []) = space_pair a b
is_space (a ∷ b ∷ c ∷ []) = space_triple a b c
is_space _ = false

-- The same of a character read backwards.
abbrev pub is_back_space : Bytes → Bool
is_back_space ch = is_space (reverse [] ch)

abbrev pub each : (Bytes → Bool) → List Bytes → Bool
each test [] = true
each test (ch ∷ chs) = test ch && each test chs

pub each-append :
    (test : Bytes → Bool) (xs ys : List Bytes)
    → each test xs ≡ true
    → each test ys ≡ true
    → each test (xs ++ ys) ≡ true
each-append test [] ys hx hy = hy
each-append test (x ∷ xs) ys hx hy = ground (arith, hx, hy, each-append test xs ys)

-- A head that `width` measures is a character that the test accepts, and a width of 0 says that
-- there is none.
pub record HeadOf (width : Bytes → ℕ) (test : Bytes → Bool) (s : Bytes) : Type 0 where
  pub ch : Bytes
  pub rest : Bytes
  pub joined : s ≡ ch ++ rest
  pub accepted : test ch ≡ true
  pub wide : 0 < width s
  pub dropped : drop (width s) s ≡ rest
  pub shorter : length rest < length s

pub record Stripped (width : Bytes → ℕ) (test : Bytes → Bool) (s t : Bytes) : Type 0 where
  pub chs : List Bytes
  pub joined : s ≡ concat chs ++ t
  pub accepted : each test chs ≡ true
  pub ended : width t ≡ 0

strip_stop : (width : Bytes → ℕ) (fuel : ℕ) (s : Bytes) → width s ≡ 0 → strip width fuel s ≡ s
unfolding strip
strip_stop width zero s z = refl
strip_stop width (suc fuel) s z = ground (arith, z)

strip_more :
    (width : Bytes → ℕ) (fuel : ℕ) (s : Bytes)
    → 0 < width s
    → strip width (suc fuel) s ≡ strip width fuel (drop (width s) s)
unfolding strip
strip_more width fuel s wide = ground (arith, wide)

strip_cut :
    (width : Bytes → ℕ) (test : Bytes → Bool) (fuel : ℕ) (s : Bytes) (c : HeadOf width test s)
    → Stripped width test c.rest (strip width fuel c.rest)
    → Stripped width test s (strip width (suc fuel) s)
strip_cut width test fuel s c r =
    subst (Stripped width test s)
      (sym (strip_more width fuel s c.wide ∙ ap (strip width fuel) c.dropped))
      (record {
        chs = c.ch ∷ r.chs;
        joined = c.joined ∙ ap (◌++◌ c.ch) r.joined ∙ sym (append_assoc c.ch (concat r.chs) _);
        accepted = ground (arith, c.accepted, r.accepted);
        ended = r.ended;
      })

strip_further :
    (width : Bytes → ℕ) (test : Bytes → Bool)
    → ((s : Bytes) → (width s ≡ 0) ⊎ HeadOf width test s)
    → (fuel : ℕ) (s : Bytes) → length s ≤ fuel
    → (width s ≡ 0) ⊎ HeadOf width test s
    → Stripped width test s (strip width fuel s)
strip_further width test cut fuel s le (inl z) =
    subst (Stripped width test s) (sym (strip_stop width fuel s z))
      (record { chs = []; joined = refl; accepted = refl; ended = z })
strip_further width test cut zero s le (inr c) = absurd (omega (arith, le, c.shorter))
strip_further width test cut (suc fuel) s le (inr c) =
    strip_cut width test fuel s c
      (strip_further width test cut fuel c.rest (omega (arith, le, c.shorter)) (cut c.rest))

-- Enough fuel strips every character that the test accepts.
pub strip-Stripped :
    (width : Bytes → ℕ) (test : Bytes → Bool)
    → ((s : Bytes) → (width s ≡ 0) ⊎ HeadOf width test s)
    → (fuel : ℕ) (s : Bytes) → length s ≤ fuel
    → Stripped width test s (strip width fuel s)
strip-Stripped width test cut fuel s le = strip_further width test cut fuel s le (cut s)

drop-append : (xs ys : Bytes) → drop (length xs) (xs ++ ys) ≡ ys
drop-append [] ys = refl
drop-append (x ∷ xs) ys = drop-append xs ys

cut_at :
    (width : Bytes → ℕ) (test : Bytes → Bool) (ch rest : Bytes)
    → test ch ≡ true
    → 0 < length ch
    → width (ch ++ rest) ≡ length ch
    → HeadOf width test (ch ++ rest)
cut_at width test ch rest accepted wide w = record {
  ch = ch;
  rest = rest;
  joined = refl;
  accepted = accepted;
  wide = ground (arith, w, wide);
  dropped = ap (λ n. drop n (ch ++ rest)) w ∙ drop-append ch rest;
  shorter = omega (arith, length-append ch rest, wide);
}

pub cut_leading : (s : Bytes) → (leading s ≡ 0) ⊎ HeadOf leading is_space s
unfolding leading is_space
cut_leading [] = inl refl
cut_leading (a ∷ []) = elim (Bool-cases (space_byte a)) [
  | inl y ↦ inr (cut_at leading is_space (a ∷ []) [] y (omega arith) (ground (arith, y)))
  | inr n ↦ inl (ground (arith, n))
]
cut_leading (a ∷ b ∷ []) = elim (Bool-cases (space_byte a)) [
  | inl y ↦ inr (cut_at leading is_space (a ∷ []) (b ∷ []) y (omega arith) (ground (arith, y)))
  | inr n ↦ elim (Bool-cases (space_pair a b)) [
    | inl y ↦ inr (cut_at leading is_space (a ∷ b ∷ []) [] y (omega arith) (ground (arith, n, y)))
    | inr m ↦ inl (ground (arith, n, m))
  ]
]
cut_leading (a ∷ b ∷ c ∷ s) = elim (Bool-cases (space_byte a)) [
  | inl y ↦ inr (cut_at leading is_space (a ∷ []) (b ∷ c ∷ s) y (omega arith) (ground (arith, y)))
  | inr n ↦ elim (Bool-cases (space_pair a b)) [
    | inl y ↦
        inr (cut_at leading is_space (a ∷ b ∷ []) (c ∷ s) y (omega arith) (ground (arith, n, y)))
    | inr m ↦ elim (Bool-cases (space_triple a b c)) [
      | inl y ↦
          inr (cut_at leading is_space (a ∷ b ∷ c ∷ []) s y (omega arith) (ground (arith, n, m, y)))
      | inr k ↦ inl (ground (arith, n, m, k))
    ]
  ]
]

pub cut_trailing : (s : Bytes) → (trailing s ≡ 0) ⊎ HeadOf trailing is_back_space s
unfolding trailing is_space
cut_trailing [] = inl refl
cut_trailing (a ∷ []) = elim (Bool-cases (space_byte a)) [
  | inl y ↦ inr (cut_at trailing is_back_space (a ∷ []) [] y (omega arith) (ground (arith, y)))
  | inr n ↦ inl (ground (arith, n))
]
cut_trailing (b ∷ a ∷ []) = elim (Bool-cases (space_byte b)) [
  | inl y ↦
      inr (cut_at trailing is_back_space (b ∷ []) (a ∷ []) y (omega arith) (ground (arith, y)))
  | inr n ↦ elim (Bool-cases (space_pair a b)) [
    | inl y ↦
        inr (cut_at trailing is_back_space (b ∷ a ∷ []) [] y (omega arith) (ground (arith, n, y)))
    | inr m ↦ inl (ground (arith, n, m))
  ]
]
cut_trailing (c ∷ b ∷ a ∷ s) = elim (Bool-cases (space_byte c)) [
  | inl y ↦
      inr (cut_at trailing is_back_space (c ∷ []) (b ∷ a ∷ s) y (omega arith) (ground (arith, y)))
  | inr n ↦ elim (Bool-cases (space_pair b c)) [
    | inl y ↦
        inr (
          cut_at trailing is_back_space (c ∷ b ∷ []) (a ∷ s) y (omega arith) (ground (arith, n, y)))
    | inr m ↦ elim (Bool-cases (space_triple a b c)) [
      | inl y ↦ inr (
          cut_at trailing is_back_space (c ∷ b ∷ a ∷ []) s y (omega arith)
            (ground (arith, n, m, y)))
      | inr k ↦ inl (ground (arith, n, m, k))
    ]
  ]
]
