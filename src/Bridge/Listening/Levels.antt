-- ===== src/Bridge/Listening/Levels.antt =====
-- The level of the uplink (src/bridge/mod.rs), against exact sums.
use kutsu.Base.{
  ℕ, zero, suc, ◌+◌, ◌*◌, ◌≤◌, ◌<◌, ◌≡◌, refl, Bool, true, not, ◌&&◌, ◌||◌, List, [], ◌∷◌, map,
  length, All, arith, leb, length-map, Bool-cases, inl, inr,
}
use native.Mathlib.Nat.{mul-le-mul_left, mul-le-mul_right}
use kutsu.G711.{ℤ, pos, negsuc, G711Kind, ulaw, alaw, decode, decode_ulaw, decode_alaw}
use kutsu.Config.{Std}
use kutsu.Bridge.Gain.{Floats, Agc, clamp, amplified, process, is_empty}
use kutsu.Bridge.Listening.{square, sum_squares}

abbrev pub IsI16 : ℤ → Type 0
IsI16 (pos a) = a ≤ 32767
IsI16 (negsuc a) = a ≤ 32767

is_i16 : ℤ → Bool
is_i16 (pos a) = leb a 32767
is_i16 (negsuc a) = leb a 32767

is_i16-IsI16 : (s : ℤ) → is_i16 s ≡ true → IsI16 s
unfolding is_i16
is_i16-IsI16 (pos a) h = ground (arith, h)
is_i16-IsI16 (negsuc a) h = ground (arith, h)

all_below : (ℕ → Bool) → ℕ → Bool
all_below p zero = true
all_below p (suc n) = p n && all_below p n

below_all : (p : ℕ → Bool) (n u : ℕ) → all_below p n ≡ true → u < n → p u ≡ true
unfolding all_below
below_all p zero u h lt = ground arith
below_all p (suc n) u h lt = ground (arith, below_all p n u)

all_ulaw : all_below (λ u. is_i16 (decode_ulaw u)) 256 ≡ true
unfolding all_below is_i16 decode_ulaw
all_ulaw = refl

all_alaw : all_below (λ u. is_i16 (decode_alaw u)) 256 ≡ true
unfolding all_below is_i16 decode_alaw
all_alaw = refl

pub decoded :
    (codec : G711Kind) (payload : List ℕ)
    → All (λ u. u < 256) payload
    → All IsI16 (decode codec payload)
unfolding decode
decoded ulaw [] h = tt
decoded ulaw (u ∷ us) h = (is_i16-IsI16 _ (below_all _ 256 u all_ulaw h.0), decoded ulaw us h.1)
decoded alaw [] h = tt
decoded alaw (u ∷ us) h = (is_i16-IsI16 _ (below_all _ 256 u all_alaw h.0), decoded alaw us h.1)

pub length-decode :
    (codec : G711Kind) (payload : List ℕ) → length (decode codec payload) ≡ length payload
unfolding decode
length-decode ulaw payload = length-map decode_ulaw payload
length-decode alaw payload = length-map decode_alaw payload

clamp-IsI16 : (s : ℤ) → IsI16 (clamp s)
unfolding clamp
clamp-IsI16 (pos a) = elim (Bool-cases (leb a 32767)) [
  | inl y ↦ rw y (ground (arith, y))
  | inr y ↦ rw y (omega arith)
]
clamp-IsI16 (negsuc a) = elim (Bool-cases (leb a 32767)) [
  | inl y ↦ rw y (ground (arith, y))
  | inr y ↦ rw y (omega arith)
]

clamped : (g : ℤ → ℤ) (pcm : List ℤ) → All IsI16 (map (λ s. clamp (g s)) pcm)
clamped g [] = tt
clamped g (s ∷ pcm) = (clamp-IsI16 (g s), clamped g pcm)

module _ (n : Std) (f : Floats n.F) where
  amplified-IsI16 : (gain : n.F) (pcm : List ℤ) → All IsI16 pcm → All IsI16 (amplified n f gain pcm)
  unfolding amplified
  amplified-IsI16 gain pcm h = elim (Bool-cases (f.near_unity gain)) [
    | inl y ↦ rw y h
    | inr y ↦ rw y (clamped (f.rounded gain) pcm)
  ]

  length-amplified : (gain : n.F) (pcm : List ℤ) → length (amplified n f gain pcm) ≡ length pcm
  unfolding amplified
  length-amplified gain pcm = elim (Bool-cases (f.near_unity gain)) [
    | inl y ↦ rw y refl
    | inr y ↦ rw y (length-map _ pcm)
  ]

  pub process-IsI16 :
      (agc : Agc n f) (pcm : List ℤ) → All IsI16 pcm → All IsI16 (process n f agc pcm).1
  unfolding process
  process-IsI16 agc pcm h = elim (Bool-cases (not agc.cfg.enabled || is_empty pcm)) [
    | inl y ↦ rw y h
    | inr y ↦ rw y (amplified-IsI16 _ pcm h)
  ]

  pub length-process : (agc : Agc n f) (pcm : List ℤ) → length (process n f agc pcm).1 ≡ length pcm
  unfolding process
  length-process agc pcm = elim (Bool-cases (not agc.cfg.enabled || is_empty pcm)) [
    | inl y ↦ rw y refl
    | inr y ↦ rw y (length-amplified _ pcm)
  ]

square_mono : (a b : ℕ) → a ≤ b → a * a ≤ b * b
square_mono a b h = omega (arith, mul-le-mul_left a h, mul-le-mul_right b h)

square-le : (s : ℤ) → IsI16 s → square s ≤ 1073741824
unfolding square
square-le (pos a) h = omega (arith, square_mono a 32767 h)
square-le (negsuc a) h = omega (arith, square_mono (a + 1) 32768 (omega arith))

-- The exact energy of a frame.
unfoldable pub energy : List ℤ → ℕ
energy [] = 0
energy (s ∷ pcm) = square s + energy pcm

pub energy-le : (pcm : List ℤ) → All IsI16 pcm → energy pcm ≤ length pcm * 1073741824
unfolding energy
energy-le [] h = omega arith
energy-le (s ∷ pcm) h = omega (arith, square-le s h.0, energy-le pcm h.1)

pub sum_squares-energy :
    (pcm : List ℤ) → energy pcm < 18446744073709551616 → sum_squares pcm ≡ energy pcm
unfolding sum_squares energy
sum_squares-energy [] h = refl
sum_squares-energy (s ∷ pcm) h = ground (arith, sum_squares-energy pcm (omega arith))
