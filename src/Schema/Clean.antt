-- ===== src/Schema/Clean.antt =====
-- What `sanitize_gemini_schema` of src/config.rs leaves of a schema.
use kutsu.Base.{
  ℕ, zero, suc, ◌≤◌, ◌≡◌, refl, Bool, true, false, Option, none, some, List, [], ◌∷◌, All, arith,
}
use kutsu.Base.Bytes.{Bytes, bytes_eq, bytes_eq_iff}
use kutsu.Disposition.{ascii}
use kutsu.Schema.Json.{
  Value, Items, Members, null, bool, number, string, array, object, nil, item, end, member, get,
  insert, remove, any_text, depth, depth_items, depth_members,
}
use kutsu.Schema.Maps.{get-insert, get-remove}
use kutsu.Schema.Depth.{depth-fold_type, depth-remove_all}
use kutsu.Schema.{
  gemini_unsupported_schema_keys, remove_all, first_type, set_type, set_nullable, fold_types,
  fold_type, map_items, map_values, sanitize, sanitize_gemini_schema, augment_goal_schema,
  setup_schema,
}

abbrev pub IsFree : List Bytes → Members → Type 0
IsFree ks m = All (λ k. get k m ≡ none) ks

-- No object in the value has one of the keys, at any depth.
unfoldable mutual
  pub IsClean : Value → Type 0
  IsClean null = Unit {0}
  IsClean (bool b) = Unit {0}
  IsClean (number n) = Unit {0}
  IsClean (string s) = Unit {0}
  IsClean (array xs) = AreClean xs
  IsClean (object m) = IsFree gemini_unsupported_schema_keys m × HasClean m

  pub AreClean : Items → Type 0
  AreClean nil = Unit {0}
  AreClean (item x xs) = IsClean x × AreClean xs

  pub HasClean : Members → Type 0
  HasClean end = Unit {0}
  HasClean (member k v m) = IsClean v × HasClean m

remove_all-IsFree : (ks qs : List Bytes) (m : Members) → IsFree qs m → IsFree qs (remove_all ks m)
unfolding remove_all
remove_all-IsFree [] qs m h = h
remove_all-IsFree (k ∷ ks) qs m h = remove_all-IsFree ks qs (remove k m) (remove-IsFree qs h)
  where
    remove-IsFree : (qs : List Bytes) → IsFree qs m → IsFree qs (remove k m)
    remove-IsFree [] h = tt
    remove-IsFree (q ∷ qs) h = (ground (arith, get-remove k q m, h.0), remove-IsFree qs h.1)

pub removed-IsFree : (ks : List Bytes) (m : Members) → IsFree ks (remove_all ks m)
unfolding remove_all
removed-IsFree [] m = tt
removed-IsFree (k ∷ ks) m = (
  (remove_all-IsFree ks (k ∷ []) (remove k m)
      (ground (arith, get-remove k k m, bytes_eq_iff k k), tt)).0,
  removed-IsFree ks (remove k m),
)

insert-IsFree :
    (j : Bytes) (v : Value) (ks : List Bytes) (m : Members)
    → All (λ k. bytes_eq j k ≡ false) ks
    → IsFree ks m
    → IsFree ks (insert j v m)
insert-IsFree j v [] m h i = tt
insert-IsFree j v (k ∷ ks) m h i =
    (ground (arith, get-insert j k v m, h.0, i.0), insert-IsFree j v ks m h.1 i.1)

type_supported : All (λ k. bytes_eq (ascii "type") k ≡ false) gemini_unsupported_schema_keys
unfolding bytes_eq
type_supported = ground arith

nullable_supported : All (λ k. bytes_eq (ascii "nullable") k ≡ false) gemini_unsupported_schema_keys
unfolding bytes_eq
nullable_supported = ground arith

get-map_values :
    (k : Bytes) (f : Value → Value) (m : Members) → get k m ≡ none → get k (map_values f m) ≡ none
unfolding get map_values
get-map_values k f end h = refl
get-map_values k f (member j v m) h = ground (arith, get-map_values k f m)

pub map_values-IsFree :
    (f : Value → Value) (ks : List Bytes) (m : Members) → IsFree ks m → IsFree ks (map_values f m)
map_values-IsFree f [] m h = tt
map_values-IsFree f (k ∷ ks) m h = (get-map_values k f m h.0, map_values-IsFree f ks m h.1)

set_type-IsFree :
    (o : Option Value) (m : Members)
    → IsFree gemini_unsupported_schema_keys m
    → IsFree gemini_unsupported_schema_keys (set_type o m)
unfolding set_type
set_type-IsFree none m h = h
set_type-IsFree (some t) m h =
    insert-IsFree (ascii "type") t gemini_unsupported_schema_keys m type_supported h

set_nullable-IsFree :
    (b : Bool) (m : Members)
    → IsFree gemini_unsupported_schema_keys m
    → IsFree gemini_unsupported_schema_keys (set_nullable b m)
unfolding set_nullable
set_nullable-IsFree false m h = h
set_nullable-IsFree true m h =
    insert-IsFree (ascii "nullable") (bool true) gemini_unsupported_schema_keys m nullable_supported
      h

fold_types-IsFree :
    (o : Option Value) (m : Members)
    → IsFree gemini_unsupported_schema_keys m
    → IsFree gemini_unsupported_schema_keys (fold_types o m)
unfolding fold_types
fold_types-IsFree (some (array types)) m h =
    set_nullable-IsFree (any_text (ascii "null") types) (set_type (first_type types) m)
      (set_type-IsFree (first_type types) m h)
fold_types-IsFree (some null) m h = h
fold_types-IsFree (some (bool b)) m h = h
fold_types-IsFree (some (number n)) m h = h
fold_types-IsFree (some (string s)) m h = h
fold_types-IsFree (some (object ps)) m h = h
fold_types-IsFree none m h = h

pub rewritten-IsFree :
    (m : Members)
    → IsFree gemini_unsupported_schema_keys
        (fold_type (remove_all gemini_unsupported_schema_keys m))
unfolding fold_type
rewritten-IsFree m = fold_types-IsFree _ _ (removed-IsFree gemini_unsupported_schema_keys m)

depth-rewritten :
    (m : Members)
    → depth_members (fold_type (remove_all gemini_unsupported_schema_keys m)) ≤ depth_members m
depth-rewritten m = omega (
  arith,
  depth-fold_type (remove_all gemini_unsupported_schema_keys m),
  depth-remove_all gemini_unsupported_schema_keys m,
)

module _ (f : Value → Value) (n : ℕ) (cleans : (v : Value) → depth v ≤ n → IsClean (f v)) where
  map_items-AreClean : (xs : Items) → depth_items xs ≤ n → AreClean (map_items f xs)
  unfolding map_items IsClean depth
  map_items-AreClean nil h = tt
  map_items-AreClean (item x xs) h = (cleans x (omega arith), map_items-AreClean xs (omega arith))

  map_values-HasClean : (m : Members) → depth_members m ≤ n → HasClean (map_values f m)
  unfolding map_values IsClean depth
  map_values-HasClean end h = tt
  map_values-HasClean (member k v m) h =
      (cleans v (omega arith), map_values-HasClean m (omega arith))

sanitize-IsClean : (n : ℕ) (v : Value) → depth v ≤ n → IsClean (sanitize n v)
unfolding sanitize IsClean depth
sanitize-IsClean zero null h = tt
sanitize-IsClean zero (bool b) h = tt
sanitize-IsClean zero (number x) h = tt
sanitize-IsClean zero (string s) h = tt
sanitize-IsClean zero (array xs) h = absurd (omega arith)
sanitize-IsClean zero (object m) h = absurd (omega arith)
sanitize-IsClean (suc n) null h = tt
sanitize-IsClean (suc n) (bool b) h = tt
sanitize-IsClean (suc n) (number x) h = tt
sanitize-IsClean (suc n) (string s) h = tt
sanitize-IsClean (suc n) (array xs) h =
    map_items-AreClean (sanitize n) n (sanitize-IsClean n) xs (omega arith)
sanitize-IsClean (suc n) (object m) h = (
  map_values-IsFree (sanitize n) gemini_unsupported_schema_keys
      (fold_type (remove_all gemini_unsupported_schema_keys m)) (rewritten-IsFree m),
  map_values-HasClean (sanitize n) n (sanitize-IsClean n)
      (fold_type (remove_all gemini_unsupported_schema_keys m)) (omega (arith, depth-rewritten m)),
)

-- No object of what the session is set up with, at any depth, has one of the keys that Gemini
-- refuses, whatever the caller sent.
pub setup_schema-IsClean :
    (from_str : Bytes → Option Value) (schema : Value) → IsClean (setup_schema from_str schema)
unfolding setup_schema sanitize_gemini_schema
setup_schema-IsClean from_str schema =
    sanitize-IsClean (depth (augment_goal_schema from_str schema))
      (augment_goal_schema from_str schema) (omega arith)
