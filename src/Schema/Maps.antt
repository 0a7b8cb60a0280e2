-- ===== src/Schema/Maps.antt =====
-- The laws of maps (of `serde_json`, as src/config.rs uses them).
use kutsu.Base.{◌≡◌, refl, none, some, if◌then◌else◌, arith}
use kutsu.Base.Bytes.{Bytes, bytes_eq, bytes_eq_iff}
use kutsu.Schema.Json.{Value, Members, end, member, get, insert, remove}

pub get-insert :
    (k j : Bytes) (v : Value) (m : Members)
    → get j (insert k v m) ≡ (if bytes_eq k j then some v else get j m)
unfolding get insert
get-insert k j v end = refl
get-insert k j v (member i w m) =
    ground (arith, bytes_eq_iff k j, bytes_eq_iff i k, bytes_eq_iff i j, get-insert k j v m)

pub get-remove :
    (k j : Bytes) (m : Members) → get j (remove k m) ≡ (if bytes_eq k j then none else get j m)
unfolding get remove
get-remove k j end = ground arith
get-remove k j (member i w m) =
    ground (arith, bytes_eq_iff k j, bytes_eq_iff i k, bytes_eq_iff i j, get-remove k j m)

-- A second insert of the same changes nothing.
pub insert-insert : (k : Bytes) (v : Value) (m : Members) → insert k v (insert k v m) ≡ insert k v m
unfolding insert
insert-insert k v end = ground (arith, bytes_eq_iff k k)
insert-insert k v (member i w m) =
    ground (arith, bytes_eq_iff k k, bytes_eq_iff i k, insert-insert k v m)
