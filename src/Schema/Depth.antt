-- ===== src/Schema/Depth.antt =====
-- How deep a schema is, while `sanitize_gemini_schema` of src/config.rs rewrites it.
use kutsu.Base.{max, ◌≤◌, ◌≡◌, refl, Bool, true, false, Option, none, some, List, [], ◌∷◌, arith}
use kutsu.Base.Bytes.{Bytes}
use kutsu.Disposition.{ascii}
use kutsu.Schema.Json.{
  Value, Items, Members, null, bool, number, string, array, object, nil, item, end, member, get,
  insert, remove, any_text, depth, depth_items, depth_members,
}
use kutsu.Schema.{remove_all, first_type, set_type, set_nullable, fold_types, fold_type}

pub depth-remove : (k : Bytes) (m : Members) → depth_members (remove k m) ≤ depth_members m
unfolding depth remove
depth-remove k end = omega arith
depth-remove k (member j v m) = ground (arith, depth-remove k m)

pub depth-remove_all :
    (ks : List Bytes) (m : Members) → depth_members (remove_all ks m) ≤ depth_members m
unfolding remove_all
depth-remove_all [] m = omega arith
depth-remove_all (k ∷ ks) m = omega (arith, depth-remove k m, depth-remove_all ks (remove k m))

pub depth-insert :
    (k : Bytes) (v : Value) (m : Members)
    → depth_members (insert k v m) ≤ max (depth v) (depth_members m)
unfolding depth insert
depth-insert k v end = omega arith
depth-insert k v (member j w m) = ground (arith, depth-insert k v m)

pub depth-get : (k : Bytes) (m : Members) (v : Value) → get k m ≡ some v → depth v ≤ depth_members m
unfolding depth get
depth-get k end v h = ground arith
depth-get k (member j w m) v h = ground (arith, depth-get k m v)

pub depth-first_type : (xs : Items) (t : Value) → first_type xs ≡ some t → depth t ≤ depth_items xs
unfolding depth first_type
depth-first_type nil t h = ground arith
depth-first_type (item x xs) t h = ground (arith, depth-first_type xs t)

depth-set_type :
    (o : Option Value) (m : Members)
    → ((t : Value) → o ≡ some t → depth t ≤ depth_members m)
    → depth_members (set_type o m) ≤ depth_members m
unfolding set_type
depth-set_type none m h = omega arith
depth-set_type (some t) m h = omega (arith, depth-insert (ascii "type") t m, h t refl)

depth-set_nullable : (b : Bool) (m : Members) → depth_members (set_nullable b m) ≤ depth_members m
unfolding set_nullable depth
depth-set_nullable true m = omega (arith, depth-insert (ascii "nullable") (bool true) m)
depth-set_nullable false m = omega arith

depth-fold_types :
    (o : Option Value) (m : Members)
    → get (ascii "type") m ≡ o
    → depth_members (fold_types o m) ≤ depth_members m
unfolding fold_types depth
depth-fold_types (some (array types)) m h = omega (
  arith,
  depth-set_nullable (any_text (ascii "null") types) (set_type (first_type types) m),
  depth-set_type (first_type types) m (λ t e.
      omega (arith, depth-first_type types t e, depth-get (ascii "type") m (array types) h)),
)
depth-fold_types (some null) m h = omega arith
depth-fold_types (some (bool b)) m h = omega arith
depth-fold_types (some (number n)) m h = omega arith
depth-fold_types (some (string s)) m h = omega arith
depth-fold_types (some (object ps)) m h = omega arith
depth-fold_types none m h = omega arith

pub depth-fold_type : (m : Members) → depth_members (fold_type m) ≤ depth_members m
unfolding fold_type
depth-fold_type m = depth-fold_types (get (ascii "type") m) m refl
