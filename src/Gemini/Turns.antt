-- ===== src/Gemini/Turns.antt =====
-- The transcript of a turn (src/gemini_live.rs, `TranscriptAccumulator`).
use kutsu.Base.{ℕ, ◌≡◌, ◌<◌, refl, sym, ap, subst, ◌∙◌, true, List, [], ◌∷◌, ◌++◌, arith, length}
use kutsu.Base.Bytes.{Bytes}
use kutsu.Store.{Role, user, model, TranscriptEntry}
use kutsu.Gemini.{TranscriptAccumulator, empty, on_delta, flush, entry_of, trim}
use kutsu.Gemini.Backwards.{append_assoc, append_nil, concat, concat-append}
use kutsu.Gemini.Trim.{is_space, each, each-append}
use kutsu.Gemini.Trimmed.{IsTrimmed, trim-IsTrimmed}

-- The deltas of one turn, as they come.
abbrev pub Deltas : Type 0
Deltas = List (Role × Bytes)

pub accumulate : TranscriptAccumulator → Deltas → TranscriptAccumulator
accumulate acc [] = acc
accumulate acc ((role, text) ∷ ds) = accumulate (on_delta acc role text) ds

-- What one role said in them.
abbrev pub said : Role → Deltas → Bytes
said role [] = []
said user ((user, text) ∷ ds) = text ++ said user ds
said user ((model, text) ∷ ds) = said user ds
said model ((user, text) ∷ ds) = said model ds
said model ((model, text) ∷ ds) = text ++ said model ds

accumulate-said :
    (ds : Deltas) (acc : TranscriptAccumulator)
    → accumulate acc ds ≡ record {
      user_text = acc.user_text ++ said user ds;
      model_text = acc.model_text ++ said model ds;
    }
unfolding accumulate on_delta
accumulate-said [] acc = ground (arith, append_nil acc.user_text, append_nil acc.model_text)
accumulate-said ((user, text) ∷ ds) acc =
    accumulate-said ds _
    ∙ ap (λ t. record { user_text = t; model_text = acc.model_text ++ said model ds })
        (append_assoc acc.user_text text (said user ds))
accumulate-said ((model, text) ∷ ds) acc =
    accumulate-said ds _
    ∙ ap (λ t. record { user_text = acc.user_text ++ said user ds; model_text = t })
        (append_assoc acc.model_text text (said model ds))

-- What a role that said this text leaves: no entry if all of it is white space, else one entry
-- with what is left of it after trimming, which is not empty.
pub data Left (role : Role) (text : Bytes) (ts_ms : ℕ) : List TranscriptEntry → Type 0 where
  silent :
      (spaces : List Bytes)
      → text ≡ concat spaces
      → each is_space spaces ≡ true
      → Left role text ts_ms []
  spoken :
      (t : Bytes)
      → 0 < length t
      → IsTrimmed text t
      → Left role text ts_ms (record { role = role; text = t; ts_ms = ts_ms } ∷ [])

-- A flushed turn: the accumulator is empty, and the user's entry comes before the model's.
pub record IsTurn (ds : Deltas) (ts_ms : ℕ) (out : TranscriptAccumulator × List TranscriptEntry)
    : Type 0 where
  pub users : List TranscriptEntry
  pub models : List TranscriptEntry
  pub cleared : out.0 ≡ empty
  pub entries : out.1 ≡ users ++ models
  pub by_user : Left user (said user ds) ts_ms users
  pub by_model : Left model (said model ds) ts_ms models

entry_of-Left :
    (role : Role) (text t : Bytes) (ts_ms : ℕ)
    → IsTrimmed text t
    → Left role text ts_ms (entry_of role t ts_ms)
unfolding entry_of
entry_of-Left role text [] ts_ms i =
    silent (i.before ++ i.after) (i.joined ∙ sym (concat-append i.before i.after))
      (each-append is_space i.before i.after i.spaces_before i.spaces_after)
entry_of-Left role text (a ∷ t) ts_ms i = spoken (a ∷ t) (omega arith) i

flushed :
    (ds : Deltas) (ts_ms : ℕ)
    → IsTurn ds ts_ms
        (flush (record { user_text = said user ds; model_text = said model ds }) ts_ms)
unfolding flush
flushed ds ts_ms = record {
  users = entry_of user (trim (said user ds)) ts_ms;
  models = entry_of model (trim (said model ds)) ts_ms;
  cleared = refl;
  entries = refl;
  by_user = entry_of-Left user (said user ds) _ ts_ms (trim-IsTrimmed (said user ds));
  by_model = entry_of-Left model (said model ds) _ ts_ms (trim-IsTrimmed (said model ds));
}

-- A flushed turn leaves the user's entry before the model's, and an empty accumulator. For each
-- role the text is all its deltas joined in order, however they were cut and however the two
-- roles' were interleaved. If that is white space alone there is no entry; else there is one, with
-- the text less the white space before and after it, which is not empty and has no white space
-- left at either end.
pub flush-IsTurn : (ds : Deltas) (ts_ms : ℕ) → IsTurn ds ts_ms (flush (accumulate empty ds) ts_ms)
flush-IsTurn ds ts_ms =
    subst (λ acc. IsTurn ds ts_ms (flush acc ts_ms)) (sym (accumulate-said ds empty))
      (flushed ds ts_ms)
