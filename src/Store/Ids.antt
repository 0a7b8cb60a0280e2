-- ===== src/Store/Ids.antt =====
-- The ids `call-N` that src/engine.rs makes, and the age that src/state.rs reads out of them.
use kutsu.Base.{ℕ, ◌≤◌, ◌≡◌, refl, ◌∷◌, u64_max}
use kutsu.Base.Bytes.{Bytes, bytes_eq}
use kutsu.Base.Decimal.{print_decimal, parse_u64-print_decimal}
use kutsu.Store.{call_seq}

-- `format!("call-{n}")`.
unfoldable pub call_id_of : ℕ → Bytes
call_id_of n = b'c' ∷ b'a' ∷ b'l' ∷ b'l' ∷ b'-' ∷ print_decimal n

-- The number that the store reads out of an id made by the engine is the sequence number that
-- went into it, for every number that a u64 holds.
call_seq-call_id_of : (n : ℕ) → n ≤ u64_max → call_seq (call_id_of n) ≡ n
unfolding call_seq call_id_of bytes_eq
call_seq-call_id_of n fits = rw (parse_u64-print_decimal n fits) refl

-- So no two calls share an id.
pub call_id_of-injective :
    (m n : ℕ) → m ≤ u64_max → n ≤ u64_max → call_id_of m ≡ call_id_of n → m ≡ n
call_id_of-injective m n hm hn e = cc (call_seq-call_id_of m hm, call_seq-call_id_of n hn)
