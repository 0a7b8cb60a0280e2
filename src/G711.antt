-- ===== src/G711.antt =====
-- src/bridge/g711.rs: the G.711 codecs.
pub mod Codes
use kutsu.Base.{
  ℕ, zero, suc, ◌+◌, ◌-◌, ◌*◌, ◌/◌, ◌%◌, ◌^◌, min, Bool, true, false, ltb, leb, ◌==◌, if◌then◌else◌,
  List, [], ◌∷◌, map,
}

-- The integers over the native numbers; `negsuc n` is -(n + 1). A PCM16 sample is one of them.
pub data ℤ : Type 0 where
  pos negsuc : ℕ → ℤ

pub data G711Kind : Type 0 where
  ulaw alaw : G711Kind

-- `^` on the lowest `bits` bits.
unfoldable pub xor : ℕ → ℕ → ℕ → ℕ
xor zero a b = 0
xor (suc bits) a b = (a + b) % 2 + 2 * xor bits (a / 2) (b / 2)

abbrev pub seg_uend : List ℕ
seg_uend = 63 ∷ 127 ∷ 255 ∷ 511 ∷ 1023 ∷ 2047 ∷ 4095 ∷ 8191 ∷ []

abbrev pub seg_aend : List ℕ
seg_aend = 31 ∷ 63 ∷ 127 ∷ 255 ∷ 511 ∷ 1023 ∷ 2047 ∷ 4095 ∷ []

-- The first segment that holds the value, or the table's length.
unfoldable pub search : ℕ → List ℕ → ℕ
search val [] = 0
search val (t ∷ table) = let rest = search val table in if leb val t then 0 else 1 + rest

-- From the magnitude of the 14-bit value and the mask of its sign on.
unfoldable pub ulaw_code : ℕ → ℕ → ℕ
unfolding search xor
ulaw_code magnitude mask =
    let val = min magnitude 8159 + 33 in
    let seg = search val seg_uend in
    if leb 8 seg then xor 8 127 mask else xor 8 (seg * 16 + (val / 2 ^ (seg + 1)) % 16) mask

-- `>> 2` rounds down: -(n + 1) becomes -(n / 4 + 1).
unfoldable pub encode_ulaw : ℤ → ℕ
unfolding ulaw_code
encode_ulaw (pos n) = ulaw_code (n / 4) 255
encode_ulaw (negsuc n) = ulaw_code (n / 4 + 1) 127

-- The integer -n.
unfoldable pub negative : ℕ → ℤ
negative zero = pos 0
negative (suc n) = negsuc n

unfoldable pub decode_ulaw : ℕ → ℤ
unfolding negative
decode_ulaw code =
    let u = 255 - code in
    let t = ((u % 16) * 8 + 132) * 2 ^ ((u / 16) % 8) in
    if leb 128 u then negative (t - 132) else pos (t - 132)

-- From the 13-bit magnitude and the mask of its sign on.
unfoldable pub alaw_code : ℕ → ℕ → ℕ
unfolding search xor
alaw_code val mask =
    let seg = search val seg_aend in
    if leb 8 seg
    then xor 8 127 mask
    else xor 8 (seg * 16 + (if ltb seg 2 then (val / 2) % 16 else (val / 2 ^ seg) % 16)) mask

unfoldable pub encode_alaw : ℤ → ℕ
unfolding alaw_code
encode_alaw (pos n) = alaw_code (n / 8) 213
encode_alaw (negsuc n) = alaw_code (n / 8) 85

unfoldable pub decode_alaw : ℕ → ℤ
unfolding negative xor
decode_alaw code =
    let a = xor 8 code 85 in
    let mantissa = (a % 16) * 16 in
    let seg = (a / 16) % 8 in
    let t =
      if seg == 0
      then mantissa + 8
      else if seg == 1
      then mantissa + 264
      else (mantissa + 264) * 2 ^ (seg - 1) in
    if leb 128 a then pos t else negative t

unfoldable pub decode : G711Kind → List ℕ → List ℤ
decode ulaw payload = map decode_ulaw payload
decode alaw payload = map decode_alaw payload

unfoldable pub encode : G711Kind → List ℤ → List ℕ
encode ulaw pcm = map encode_ulaw pcm
encode alaw pcm = map encode_alaw pcm
