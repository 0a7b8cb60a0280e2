-- ===== src/G711/Codes.antt =====
-- Decoding a G.711 payload and encoding it again (src/bridge/g711.rs).
use kutsu.Base.{
  ℕ, zero, suc, ◌≡◌, ◌<◌, ◌≢◌, refl, Bool, true, ◌&&◌, ◌||◌, ◌==◌, List, [], ◌∷◌, All, arith,
}
use kutsu.G711.{
  G711Kind, ulaw, alaw, encode, decode, encode_ulaw, decode_ulaw, encode_alaw, decode_alaw,
}

-- Do all codes below `n` survive the round trip? 127 is the second code of zero in the u-law.
unfoldable ulaw_codes : ℕ → Bool
ulaw_codes zero = true
ulaw_codes (suc n) = ((encode_ulaw (decode_ulaw n) == n) || (n == 127)) && ulaw_codes n

unfoldable alaw_codes : ℕ → Bool
alaw_codes zero = true
alaw_codes (suc n) = (encode_alaw (decode_alaw n) == n) && alaw_codes n

all_ulaw : ulaw_codes 256 ≡ true
unfolding ulaw_codes encode_ulaw decode_ulaw
all_ulaw = refl

all_alaw : alaw_codes 256 ≡ true
unfolding alaw_codes encode_alaw decode_alaw
all_alaw = refl

below-ulaw : (n u : ℕ) → ulaw_codes n ≡ true → u < n → u ≢ 127 → encode_ulaw (decode_ulaw u) ≡ u
unfolding ulaw_codes
below-ulaw zero u h lt ne = ground arith
below-ulaw (suc n) u h lt ne = ground (arith, below-ulaw n u)

below-alaw : (n u : ℕ) → alaw_codes n ≡ true → u < n → encode_alaw (decode_alaw u) ≡ u
unfolding alaw_codes
below-alaw zero u h lt = ground arith
below-alaw (suc n) u h lt = ground (arith, below-alaw n u)

-- A byte that the encoder can produce.
abbrev pub IsCode : G711Kind → ℕ → Type 0
IsCode ulaw u = (u < 256) × (u ≢ 127)
IsCode alaw u = u < 256

-- Decoding a payload to PCM16 and encoding it again gives every payload back, in both codecs,
-- save for the u-law's code 127, a second zero.
pub encode-decode :
    (kind : G711Kind) (payload : List ℕ)
    → All (IsCode kind) payload
    → encode kind (decode kind payload) ≡ payload
unfolding encode decode
encode-decode ulaw [] h = refl
encode-decode ulaw (u ∷ us) h =
    ground (arith, below-ulaw 256 u all_ulaw h.0.0 h.0.1, encode-decode ulaw us h.1)
encode-decode alaw [] h = refl
encode-decode alaw (u ∷ us) h =
    ground (arith, below-alaw 256 u all_alaw h.0, encode-decode alaw us h.1)
