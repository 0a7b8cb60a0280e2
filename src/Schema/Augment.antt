-- ===== src/Schema/Augment.antt =====
-- What `augment_goal_schema` of src/config.rs adds to a goal schema, and what it keeps.
use kutsu.Base.{
  ◌≡◌, ◌≢◌, refl, ◌∙◌, Bool, true, false, Option, none, some, if◌then◌else◌, ◌||◌, arith,
}
use kutsu.Base.Bytes.{Bytes, bytes_eq, bytes_eq_iff, bytes_eq_refl}
use kutsu.Disposition.{ascii}
use kutsu.Schema.Json.{
  Value, Items, Members, null, bool, number, string, array, object, nil, item, end, get, insert,
  push, is_text, any_text,
}
use kutsu.Schema.Maps.{get-insert, insert-insert}
use kutsu.Schema.{amd_schema, or_insert, add_field, add_name, describe_amd, require_amd, augment}

abbrev pub properties : Bytes
properties = ascii "properties"

abbrev pub required : Bytes
required = ascii "required"

abbrev pub type_key : Bytes
type_key = ascii "type"

abbrev pub amd : Bytes
amd = ascii "amd"

-- The properties of an object schema, and its required names: none if the key is missing.
abbrev pub fields_of : Option Value → Option Members
fields_of none = some end
fields_of (some (object ps)) = some ps
fields_of (some null) = none
fields_of (some (bool _)) = none
fields_of (some (number _)) = none
fields_of (some (string _)) = none
fields_of (some (array _)) = none

abbrev pub names_of : Option Value → Option Items
names_of none = some nil
names_of (some (array xs)) = some xs
names_of (some (object _)) = none
names_of (some null) = none
names_of (some (bool _)) = none
names_of (some (number _)) = none
names_of (some (string _)) = none

any_text-push :
    (t : Bytes) (xs : Items) (v : Value) → any_text t (push xs v) ≡ (any_text t xs || is_text t v)
unfolding any_text push
any_text-push t nil v = ground arith
any_text-push t (item x xs) v = ground (arith, any_text-push t xs v)

abbrev pub or_default : Value → Option Value → Option Value
or_default v none = some v
or_default v (some w) = some w

abbrev with_amd : Option Value → Option Value
with_amd (some (object ps)) = some (object (insert amd amd_schema ps))
with_amd o = o

abbrev with_name : Option Value → Option Value
with_name (some (array xs)) =
    if any_text amd xs then some (array xs) else some (array (push xs (string amd)))
with_name o = o

get-or_insert :
    (k j : Bytes) (v : Value) (m : Members)
    → get j (or_insert k v m) ≡ (if bytes_eq k j then or_default v (get k m) else get j m)
unfolding or_insert
get-or_insert k j v m = ground (arith, get-insert k j v m, bytes_eq_iff k j)

get-add_field :
    (j : Bytes) (o : Option Value) (m : Members)
    → get properties m ≡ o
    → get j (add_field o m) ≡ (if bytes_eq properties j then with_amd o else get j m)
unfolding add_field
get-add_field j (some (object ps)) m h =
    get-insert properties j (object (insert amd amd_schema ps)) m
get-add_field j (some null) m h = ground (arith, bytes_eq_iff properties j)
get-add_field j (some (bool b)) m h = ground (arith, bytes_eq_iff properties j)
get-add_field j (some (number n)) m h = ground (arith, bytes_eq_iff properties j)
get-add_field j (some (string s)) m h = ground (arith, bytes_eq_iff properties j)
get-add_field j (some (array xs)) m h = ground (arith, bytes_eq_iff properties j)
get-add_field j none m h = ground (arith, bytes_eq_iff properties j)

get-add_name :
    (j : Bytes) (o : Option Value) (m : Members)
    → get required m ≡ o
    → get j (add_name o m) ≡ (if bytes_eq required j then with_name o else get j m)
unfolding add_name
get-add_name j (some (array xs)) m h =
    ground (arith, bytes_eq_iff required j, get-insert required j (array (push xs (string amd))) m)
get-add_name j (some null) m h = ground (arith, bytes_eq_iff required j)
get-add_name j (some (bool b)) m h = ground (arith, bytes_eq_iff required j)
get-add_name j (some (number n)) m h = ground (arith, bytes_eq_iff required j)
get-add_name j (some (string s)) m h = ground (arith, bytes_eq_iff required j)
get-add_name j (some (object ps)) m h = ground (arith, bytes_eq_iff required j)
get-add_name j none m h = ground (arith, bytes_eq_iff required j)

get-describe_amd :
    (j : Bytes) (m : Members)
    → get j (describe_amd m)
      ≡ (if bytes_eq properties j then with_amd (get properties m) else get j m)
unfolding describe_amd
get-describe_amd j m = get-add_field j (get properties m) m refl

get-require_amd :
    (j : Bytes) (m : Members)
    → get j (require_amd m) ≡ (if bytes_eq required j then with_name (get required m) else get j m)
unfolding require_amd
get-require_amd j m = get-add_name j (get required m) m refl

-- A test that is made again.
if_twice :
    {A : Type 0} (p q : Bool) (a b c d e : A)
    → (if p then a else if p then b else if q then c else if q then d else e)
      ≡ (if p then a else if q then c else e)
if_twice true q a b c d e = refl
if_twice false true a b c d e = refl
if_twice false false a b c d e = refl

required-ne-type : bytes_eq type_key required ≡ false
unfolding bytes_eq
required-ne-type = refl

required-ne-properties : bytes_eq properties required ≡ false
unfolding bytes_eq
required-ne-properties = refl

properties-ne-type : bytes_eq type_key properties ≡ false
unfolding bytes_eq
properties-ne-type = refl

required-ne-type' : bytes_eq required type_key ≡ false
unfolding bytes_eq
required-ne-type' = refl

required-ne-properties' : bytes_eq required properties ≡ false
unfolding bytes_eq
required-ne-properties' = refl

properties-ne-type' : bytes_eq properties type_key ≡ false
unfolding bytes_eq
properties-ne-type' = refl

-- A key at a time.
get-augment :
    (j : Bytes) (m : Members)
    → get j (augment m) ≡ (
        if bytes_eq required j
        then with_name (or_default (array nil) (get required m))
        else if bytes_eq properties j
        then with_amd (or_default (object end) (get properties m))
        else if bytes_eq type_key j
        then or_default (string (ascii "object")) (get type_key m)
        else get j m)
unfolding augment
get-augment j m =
    simp
      (
        get-require_amd, get-describe_amd, get-or_insert, required-ne-type, required-ne-properties,
        properties-ne-type, bytes_eq_refl,
      )
      (if_twice (bytes_eq required j) (bytes_eq properties j) _ _ _ _ _)

-- `m'` is `m` with the field `amd`, for properties `ps` and required names `xs`.
pub record IsAugmented (m : Members) (ps : Members) (xs : Items) (m' : Members) : Type 0 where
  pub typed : get type_key m' ≡ or_default (string (ascii "object")) (get type_key m)
  pub has_amd :
      (ps' : Members) × (get properties m' ≡ some (object ps'))
      × (get amd ps' ≡ some amd_schema)
      × ((k : Bytes) → k ≢ amd → get k ps' ≡ get k ps)
  pub names_amd :
      (xs' : Items) × (get required m' ≡ some (array xs'))
      × (any_text amd xs' ≡ true)
      × ((k : Bytes) → k ≢ amd → any_text k xs' ≡ any_text k xs)
  pub others : (k : Bytes) → k ≢ type_key → k ≢ properties → k ≢ required → get k m' ≡ get k m

required-augment :
    (m : Members) → get required (augment m) ≡ with_name (or_default (array nil) (get required m))
required-augment m = get-augment required m ∙ rw (bytes_eq_refl required) refl

properties-augment :
    (m : Members)
    → get properties (augment m) ≡ with_amd (or_default (object end) (get properties m))
properties-augment m =
    get-augment properties m ∙ rw (bytes_eq_refl properties, required-ne-properties') refl

type-augment :
    (m : Members) → get type_key (augment m) ≡ or_default (string (ascii "object")) (get type_key m)
type-augment m =
    get-augment type_key m
    ∙ rw (bytes_eq_refl type_key, required-ne-type', properties-ne-type') refl

with_amd-fields :
    (o : Option Value) (ps : Members)
    → fields_of o ≡ some ps
    → with_amd (or_default (object end) o) ≡ some (object (insert amd amd_schema ps))
with_amd-fields none ps h = cc
with_amd-fields (some (object qs)) ps h = cc
with_amd-fields (some null) ps h = cc
with_amd-fields (some (bool b)) ps h = cc
with_amd-fields (some (number n)) ps h = cc
with_amd-fields (some (string t)) ps h = cc
with_amd-fields (some (array xs)) ps h = cc

abbrev with_required : Items → Items
with_required xs = if any_text amd xs then xs else push xs (string amd)

with_name-names :
    (o : Option Value) (xs : Items)
    → names_of o ≡ some xs
    → with_name (or_default (array nil) o) ≡ some (array (with_required xs))
with_name-names none xs h = ground arith
with_name-names (some (array ys)) xs h = ground arith
with_name-names (some null) xs h = cc
with_name-names (some (bool b)) xs h = cc
with_name-names (some (number n)) xs h = cc
with_name-names (some (string t)) xs h = cc
with_name-names (some (object ps)) xs h = cc

any_text-with_required :
    (k : Bytes) (xs : Items) → any_text k (with_required xs) ≡ (any_text k xs || bytes_eq amd k)
unfolding is_text
any_text-with_required k xs = ground (arith, any_text-push k xs (string amd), bytes_eq_iff amd k)

module _ (m ps : Members) (xs : Items) where
  -- Whatever the object, it gets a type, keeps the one that it has, and keeps all other keys; with
  -- properties and required names of the right kind, or none, it gets the field and its name, and
  -- keeps every other field and name.
  pub augment-IsAugmented :
      fields_of (get properties m) ≡ some ps
      → names_of (get required m) ≡ some xs
      → IsAugmented m ps xs (augment m)
  augment-IsAugmented is_ps is_xs = record {
    typed = type-augment m;
    has_amd = (
      insert amd amd_schema ps,
      properties-augment m ∙ with_amd-fields (get properties m) ps is_ps,
      get-insert amd amd amd_schema ps ∙ rw (bytes_eq_refl amd) refl,
      λ k h. ground (arith, get-insert amd k amd_schema ps, bytes_eq_iff amd k),
    );
    names_amd = (
      with_required xs,
      required-augment m ∙ with_name-names (get required m) xs is_xs,
      any_text-with_required amd xs ∙ rw (bytes_eq_refl amd) (ground arith),
      λ k h. ground (arith, any_text-with_required k xs, bytes_eq_iff amd k),
    );
    others = λ k t p r. ground (
      arith,
      get-augment k m,
      bytes_eq_iff type_key k,
      bytes_eq_iff properties k,
      bytes_eq_iff required k,
    );
  }

with_amd_twice :
    (o : Option Value)
    → with_amd (or_default (object end) (with_amd (or_default (object end) o)))
      ≡ with_amd (or_default (object end) o)
with_amd_twice none = rw (insert-insert amd amd_schema end) refl
with_amd_twice (some (object ps)) = rw (insert-insert amd amd_schema ps) refl
with_amd_twice (some null) = refl
with_amd_twice (some (bool b)) = refl
with_amd_twice (some (number n)) = refl
with_amd_twice (some (string t)) = refl
with_amd_twice (some (array xs)) = refl

with_name_twice :
    (o : Option Value)
    → with_name (or_default (array nil) (with_name (or_default (array nil) o)))
      ≡ with_name (or_default (array nil) o)
unfolding is_text
with_name_twice none = ground (arith, any_text-push amd nil (string amd), bytes_eq_refl amd)
with_name_twice (some (array xs)) =
    ground (arith, any_text-push amd xs (string amd), bytes_eq_refl amd)
with_name_twice (some null) = refl
with_name_twice (some (bool b)) = refl
with_name_twice (some (number n)) = refl
with_name_twice (some (string t)) = refl
with_name_twice (some (object ps)) = refl

-- Augmenting an augmented schema changes no key of it, whatever the object was.
pub augment_twice : (m : Members) (j : Bytes) → get j (augment (augment m)) ≡ get j (augment m)
augment_twice m j =
    rw
      (
        get-augment j (augment m),
        required-augment m,
        properties-augment m,
        type-augment m,
        get-augment j m,
      )
      (ground (arith, with_amd_twice (get properties m), with_name_twice (get required m)))
