-- ===== src/Gemini.antt =====
-- src/gemini_live.rs: the transcript accumulator and the driver of a Gemini session.
pub mod Driver
pub mod Ending
pub mod Greeting
pub mod Answered
pub mod Backwards
pub mod Trim
pub mod Trimmed
pub mod Turns
use kutsu.Base.{
  ℕ, zero, suc, ◌+◌, Bool, true, false, not, ◌&&◌, ◌||◌, Option, none, some, List, [], ◌∷◌, ◌++◌,
  ltb, leb, ◌==◌, if◌then◌else◌, length, drop,
}
use kutsu.Base.Bytes.{Bytes, bytes_eq}
use kutsu.Disposition.{EndedBy, model_end_call, caller_hangup, remote_close, ascii}
use kutsu.Store.{Role, user, model, TranscriptEntry}
use kutsu.Engine.Finish.{SessionOutcome}
use kutsu.Vad.{Energy, VadConfig, Vad, observe}

-- The white space of `str::trim` in UTF-8: U+0009 to U+000D and U+0020; U+0085 and U+00A0; U+1680,
-- U+2000 to U+200A, U+2028, U+2029, U+202F, U+205F and U+3000.
unfoldable space_byte : ℕ → Bool
space_byte a = (leb 9 a && leb a 13) || (a == 32)

unfoldable space_pair : ℕ → ℕ → Bool
space_pair a b = (a == 194) && ((b == 133) || (b == 160))

unfoldable space_triple : ℕ → ℕ → ℕ → Bool
space_triple a b c =
    ((a == 225) && (b == 154) && (c == 128))
    || ((a == 226)
        && (b == 128)
        && ((leb 128 c && leb c 138) || (c == 168) || (c == 169) || (c == 175)))
    || ((a == 226) && (b == 129) && (c == 159))
    || ((a == 227) && (b == 128) && (c == 128))

-- How many bytes of white space (Unicode's property, in UTF-8) stand at the head of a string: the
-- length of one character, or 0.
unfoldable pub leading : Bytes → ℕ
unfolding space_byte space_pair space_triple
leading [] = 0
leading (a ∷ []) = if space_byte a then 1 else 0
leading (a ∷ b ∷ []) = if space_byte a then 1 else if space_pair a b then 2 else 0
leading (a ∷ b ∷ c ∷ rest) =
    if space_byte a then 1 else if space_pair a b then 2 else if space_triple a b c then 3 else 0

-- The same at the end of a string, which is given backwards.
unfoldable trailing : Bytes → ℕ
unfolding space_byte space_pair space_triple
trailing [] = 0
trailing (a ∷ []) = if space_byte a then 1 else 0
trailing (b ∷ a ∷ []) = if space_byte b then 1 else if space_pair a b then 2 else 0
trailing (c ∷ b ∷ a ∷ rest) =
    if space_byte c then 1 else if space_pair b c then 2 else if space_triple a b c then 3 else 0

-- Drops the characters that `width` measures, on fuel: one step for each.
unfoldable strip : (Bytes → ℕ) → ℕ → Bytes → Bytes
strip width zero s = s
strip width (suc fuel) s =
    let rest = strip width fuel (drop (width s) s) in if width s == 0 then s else rest

abbrev reverse : Bytes → Bytes → Bytes
reverse acc [] = acc
reverse acc (a ∷ s) = reverse (a ∷ acc) s

unfoldable pub trim : Bytes → Bytes
unfolding strip leading trailing
trim s =
    let start = strip leading (length s) s in
    reverse [] (strip trailing (length start) (reverse [] start))

-- `TranscriptAccumulator`; the field of a role has the role's name in the code.
pub record TranscriptAccumulator : Type 0 where
  pub user_text : Bytes
  pub model_text : Bytes

abbrev pub empty : TranscriptAccumulator
empty = record { user_text = []; model_text = [] }

unfoldable pub on_delta : TranscriptAccumulator → Role → Bytes → TranscriptAccumulator
on_delta acc user text = record acc { user_text = acc.user_text ++ text }
on_delta acc model text = record acc { model_text = acc.model_text ++ text }

-- One role's entry: none for white space alone.
unfoldable pub entry_of : Role → Bytes → ℕ → List TranscriptEntry
entry_of role [] ts_ms = []
entry_of role (a ∷ text) ts_ms = record { role = role; text = a ∷ text; ts_ms = ts_ms } ∷ []

unfoldable pub flush : TranscriptAccumulator → ℕ → TranscriptAccumulator × List TranscriptEntry
unfolding entry_of
flush acc ts_ms =
    (empty, entry_of user (trim acc.user_text) ts_ms ++ entry_of model (trim acc.model_text) ts_ms)
