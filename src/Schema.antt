-- ===== src/Schema.antt =====
-- src/config.rs: the goal schema of a call, `augment_goal_schema` and `sanitize_gemini_schema`, and
-- what `build_setup_config` of src/gemini_live.rs makes of it.
pub mod Json
pub mod Maps
pub mod Augment
pub mod Depth
pub mod Clean
pub mod Setup
use kutsu.Base.{ℕ, zero, suc, Bool, true, false, Option, none, some, List, [], ◌∷◌, if◌then◌else◌}
use kutsu.Base.Bytes.{Bytes}
use kutsu.Disposition.{ascii}
use Json.{
  Value, Items, Members, null, bool, number, string, array, object, nil, item, end, member, get,
  insert, remove, push, is_text, any_text, depth,
}

abbrev pub texts : List Bytes → Items
texts [] = nil
texts (t ∷ ts) = item (string t) (texts ts)

-- The property that every goal schema is given.
abbrev pub amd_schema : Value
amd_schema = object (
    member (ascii "description")
      (string (
        ascii
          "What the far end is: `live` for a real person you conversed with; otherwise the non-live kind you detected."))
      (member (ascii "enum")
        (array (
          texts (
            ascii "live"
            ∷ ascii "voicemail"
            ∷ ascii "announcement"
            ∷ ascii "ivr"
            ∷ ascii "hold"
            ∷ [])))
        (member (ascii "type") (string (ascii "string")) end)))

-- `entry(k).or_insert_with(..)`.
unfoldable pub or_insert : Bytes → Value → Members → Members
or_insert k v m = elim (get k m) [ some _ ↦ m | none ↦ insert k v m ]

-- Into the properties, if they are an object.
unfoldable pub add_field : Option Value → Members → Members
add_field (some (object ps)) m =
    insert (ascii "properties") (object (insert (ascii "amd") amd_schema ps)) m
add_field _ m = m

-- Among the required names, if they are an array.
unfoldable pub add_name : Option Value → Members → Members
add_name (some (array xs)) m =
    if any_text (ascii "amd") xs
    then m
    else insert (ascii "required") (array (push xs (string (ascii "amd")))) m
add_name _ m = m

unfoldable pub describe_amd : Members → Members
unfolding add_field
describe_amd m = add_field (get (ascii "properties") m) m

unfoldable pub require_amd : Members → Members
unfolding add_name
require_amd m = add_name (get (ascii "required") m) m

unfoldable pub augment : Members → Members
augment m = require_amd (
    or_insert (ascii "required") (array nil) (
      describe_amd (
        or_insert (ascii "properties") (object end)
          (or_insert (ascii "type") (string (ascii "object")) m))))

-- A schema that a client sent as a text is parsed first; `from_str` is `serde_json::from_str`.
unfoldable pub parsed : (Bytes → Option Value) → Value → Value
parsed from_str (string s) = elim (from_str s) [ some v ↦ v | none ↦ string s ]
parsed from_str v = v

unfoldable pub augment_object : Value → Value
unfolding augment
augment_object (object m) = object (augment m)
augment_object v = v

unfoldable pub augment_goal_schema : (Bytes → Option Value) → Value → Value
unfolding parsed augment_object
augment_goal_schema from_str schema = augment_object (parsed from_str schema)

abbrev pub gemini_unsupported_schema_keys : List Bytes
gemini_unsupported_schema_keys =
    ascii "additionalProperties"
    ∷ ascii "unevaluatedProperties"
    ∷ ascii "patternProperties"
    ∷ ascii "additionalItems"
    ∷ ascii "unevaluatedItems"
    ∷ ascii "$schema"
    ∷ ascii "$id"
    ∷ ascii "$defs"
    ∷ ascii "definitions"
    ∷ ascii "examples"
    ∷ []

unfoldable pub remove_all : List Bytes → Members → Members
remove_all [] m = m
remove_all (k ∷ ks) m = remove_all ks (remove k m)

-- The first of the types that is not "null".
unfoldable pub first_type : Items → Option Value
first_type nil = none
first_type (item x xs) = if is_text (ascii "null") x then first_type xs else some x

unfoldable pub set_type : Option Value → Members → Members
set_type (some t) m = insert (ascii "type") t m
set_type none m = m

unfoldable pub set_nullable : Bool → Members → Members
set_nullable true m = insert (ascii "nullable") (bool true) m
set_nullable false m = m

-- `type: [T, "null"]` becomes `type: T` and `nullable: true`.
unfoldable pub fold_types : Option Value → Members → Members
fold_types (some (array types)) m =
    set_nullable (any_text (ascii "null") types) (set_type (first_type types) m)
fold_types _ m = m

unfoldable pub fold_type : Members → Members
fold_type m = fold_types (get (ascii "type") m) m

unfoldable pub map_items : (Value → Value) → Items → Items
map_items f nil = nil
map_items f (item x xs) = item (f x) (map_items f xs)

unfoldable pub map_values : (Value → Value) → Members → Members
map_values f end = end
map_values f (member k v m) = member k (f v) (map_values f m)

-- To a depth: the recursion is into what `fold_type` has rewritten.
unfoldable pub sanitize : ℕ → Value → Value
sanitize zero v = v
sanitize (suc n) (object m) =
    object (map_values (sanitize n) (fold_type (remove_all gemini_unsupported_schema_keys m)))
sanitize (suc n) (array xs) = array (map_items (sanitize n) xs)
sanitize (suc n) null = null
sanitize (suc n) (bool b) = bool b
sanitize (suc n) (number x) = number x
sanitize (suc n) (string s) = string s

unfoldable pub sanitize_gemini_schema : Value → Value
sanitize_gemini_schema v = sanitize (depth v) v

-- The goal schema of `build_setup_config`.
unfoldable pub setup_schema : (Bytes → Option Value) → Value → Value
unfolding augment_goal_schema sanitize_gemini_schema
setup_schema from_str schema = sanitize_gemini_schema (augment_goal_schema from_str schema)
