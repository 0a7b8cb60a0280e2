-- ===== src/Schema/Setup.antt =====
-- The goal schema that a Gemini session is set up with (`build_setup_config` of src/gemini_live.rs).
use kutsu.Base.{
  ℕ, zero, suc, ◌≤◌, ◌≡◌, ◌≢◌, refl, ap, ◌∙◌, Bool, true, false, Option, none, some, List, [], ◌∷◌,
  All, arith,
}
use kutsu.Base.Bytes.{Bytes, bytes_eq}
use kutsu.Disposition.{ascii}
use kutsu.Schema.Json.{
  Value, Items, Members, null, bool, number, string, array, object, nil, item, end, member, get,
  remove, is_text, any_text, depth, depth_members,
}
use kutsu.Schema.Maps.{get-insert, get-remove}
use kutsu.Schema.Depth.{depth-get}
use kutsu.Schema.Clean.{IsFree, rewritten-IsFree, map_values-IsFree}
use kutsu.Schema.Augment.{
  properties, required, amd, fields_of, names_of, IsAugmented, augment-IsAugmented,
}
use kutsu.Schema.{
  amd_schema, augment, augment_object, augment_goal_schema, parsed, gemini_unsupported_schema_keys,
  remove_all, first_type, set_type, set_nullable, fold_types, fold_type, map_items, map_values,
  sanitize, sanitize_gemini_schema, setup_schema,
}

-- A key that the sanitizing leaves alone.
abbrev IsKept : Bytes → Type 0
IsKept k =
    All (λ j. bytes_eq j k ≡ false)
      (ascii "type" ∷ ascii "nullable" ∷ gemini_unsupported_schema_keys)

get-remove_all :
    (ks : List Bytes) (k : Bytes) (m : Members)
    → All (λ j. bytes_eq j k ≡ false) ks
    → get k (remove_all ks m) ≡ get k m
unfolding remove_all
get-remove_all [] k m h = refl
get-remove_all (j ∷ ks) k m h =
    get-remove_all ks k (remove j m) h.1 ∙ (get-remove j k m ∙ rw h.0 refl)

get-set_type :
    (o : Option Value) (k : Bytes) (m : Members)
    → bytes_eq (ascii "type") k ≡ false
    → get k (set_type o m) ≡ get k m
unfolding set_type
get-set_type none k m h = refl
get-set_type (some t) k m h = get-insert (ascii "type") k t m ∙ rw h refl

get-set_nullable :
    (b : Bool) (k : Bytes) (m : Members)
    → bytes_eq (ascii "nullable") k ≡ false
    → get k (set_nullable b m) ≡ get k m
unfolding set_nullable
get-set_nullable false k m h = refl
get-set_nullable true k m h = get-insert (ascii "nullable") k (bool true) m ∙ rw h refl

get-fold_types :
    (o : Option Value) (k : Bytes) (m : Members)
    → bytes_eq (ascii "type") k ≡ false
    → bytes_eq (ascii "nullable") k ≡ false
    → get k (fold_types o m) ≡ get k m
unfolding fold_types
get-fold_types (some (array ts)) k m h i =
    get-set_nullable _ k (set_type (first_type ts) m) i ∙ get-set_type (first_type ts) k m h
get-fold_types (some null) k m h i = refl
get-fold_types (some (bool b)) k m h i = refl
get-fold_types (some (number n)) k m h i = refl
get-fold_types (some (string s)) k m h i = refl
get-fold_types (some (object ps)) k m h i = refl
get-fold_types none k m h i = refl

get-map_values :
    (f : Value → Value) (k : Bytes) (m : Members) (v : Value)
    → get k m ≡ some v
    → get k (map_values f m) ≡ some (f v)
unfolding get map_values
get-map_values f k end v h = ground arith
get-map_values f k (member j w m) v h = ground (arith, get-map_values f k m v)

abbrev sanitized : ℕ → Members → Members
sanitized n m = map_values (sanitize n) (fold_type (remove_all gemini_unsupported_schema_keys m))

get-sanitized :
    (n : ℕ) (k : Bytes) (m : Members) (v : Value)
    → IsKept k
    → get k m ≡ some v
    → get k (sanitized n m) ≡ some (sanitize n v)
unfolding fold_type
get-sanitized n k m v kept h = get-map_values (sanitize n) k _ v (
    get-fold_types (get (ascii "type") (remove_all gemini_unsupported_schema_keys m)) k
      (remove_all gemini_unsupported_schema_keys m) kept.0 kept.1.0
    ∙ (get-remove_all gemini_unsupported_schema_keys k m kept.1.1 ∙ h))

is_text-sanitize : (n : ℕ) (t : Bytes) (v : Value) → is_text t (sanitize n v) ≡ is_text t v
unfolding sanitize is_text
is_text-sanitize zero t v = refl
is_text-sanitize (suc n) t null = refl
is_text-sanitize (suc n) t (bool b) = refl
is_text-sanitize (suc n) t (number x) = refl
is_text-sanitize (suc n) t (string s) = refl
is_text-sanitize (suc n) t (array xs) = refl
is_text-sanitize (suc n) t (object m) = refl

any_text-sanitize :
    (n : ℕ) (t : Bytes) (xs : Items) → any_text t (map_items (sanitize n) xs) ≡ any_text t xs
unfolding any_text map_items
any_text-sanitize n t nil = refl
any_text-sanitize n t (item x xs) = rw (is_text-sanitize n t x, any_text-sanitize n t xs) refl

properties-IsKept : IsKept properties
unfolding bytes_eq
properties-IsKept = ground arith

required-IsKept : IsKept required
unfolding bytes_eq
required-IsKept = ground arith

amd-IsKept : IsKept amd
unfolding bytes_eq
amd-IsKept = ground arith

sanitize-amd : (n : ℕ) → sanitize n amd_schema ≡ amd_schema
unfolding sanitize remove_all remove fold_type fold_types get map_values map_items bytes_eq
sanitize-amd zero = refl
sanitize-amd (suc zero) = refl
sanitize-amd (suc (suc zero)) = refl
sanitize-amd (suc (suc (suc n))) = refl

-- `m'` is what the session is set up with, for properties `ps` and required names `xs`.
pub record IsSetUp (ps : Members) (xs : Items) (m' : Members) : Type 0 where
  pub fields : Members
  pub names : Items
  pub has_fields : get properties m' ≡ some (object fields)
  pub has_names : get required m' ≡ some (array names)
  pub asks_amd : get amd fields ≡ some amd_schema
  pub requires_amd : any_text amd names ≡ true
  pub same_names : (k : Bytes) → k ≢ amd → any_text k names ≡ any_text k xs
  pub drops : IsFree gemini_unsupported_schema_keys fields

sanitized-IsSetUp :
    (n : ℕ) (m ps : Members) (xs : Items)
    → IsAugmented m ps xs (augment m)
    → depth_members (augment m) ≤ n
    → IsSetUp ps xs (sanitized n (augment m))
unfolding depth
sanitized-IsSetUp zero m ps xs i h =
    absurd (omega (arith, depth-get properties (augment m) (object i.has_amd.0) i.has_amd.1))
sanitized-IsSetUp (suc n) m ps xs i h = record {
  fields = sanitized n i.has_amd.0;
  names = map_items (sanitize n) i.names_amd.0;
  has_fields =
      get-sanitized (suc n) properties (augment m) (object i.has_amd.0) properties-IsKept
        i.has_amd.1
      ∙ unfold sanitize in refl;
  has_names =
      get-sanitized (suc n) required (augment m) (array i.names_amd.0) required-IsKept i.names_amd.1
      ∙ unfold sanitize in refl;
  asks_amd =
      get-sanitized n amd i.has_amd.0 amd_schema amd-IsKept i.has_amd.2 ∙ ap some (sanitize-amd n);
  requires_amd = any_text-sanitize n amd i.names_amd.0 ∙ i.names_amd.2;
  same_names = λ k ne. any_text-sanitize n k i.names_amd.0 ∙ i.names_amd.3 k ne;
  drops =
      map_values-IsFree (sanitize n) gemini_unsupported_schema_keys
        (fold_type (remove_all gemini_unsupported_schema_keys i.has_amd.0))
        (rewritten-IsFree i.has_amd.0);
}

-- From an object whose properties and required names are of the right kind, or missing, the session
-- is set up with an object that asks for `amd` as it stands and requires it, and requires the
-- caller's names and no others; its properties have none that is named like a keyword that Gemini
-- refuses, though such a name may be required.
pub setup_schema-IsSetUp :
    (from_str : Bytes → Option Value) (m ps : Members) (xs : Items)
    → fields_of (get properties m) ≡ some ps
    → names_of (get required m) ≡ some xs
    → (m' : Members) × (setup_schema from_str (object m) ≡ object m') × IsSetUp ps xs m'
unfolding setup_schema augment_goal_schema parsed augment_object sanitize_gemini_schema depth
    sanitize
setup_schema-IsSetUp from_str m ps xs is_ps is_xs = (
  sanitized (depth_members (augment m)) (augment m),
  refl,
  sanitized-IsSetUp (depth_members (augment m)) m ps xs (augment-IsAugmented m ps xs is_ps is_xs)
      (omega arith),
)
