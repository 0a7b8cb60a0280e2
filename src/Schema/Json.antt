-- ===== src/Schema/Json.antt =====
-- `serde_json::Value`, whose `Map` is a `BTreeMap` in this build: members sorted by key.
use kutsu.Base.{ℕ, suc, max, Bool, false, Option, none, some, ◌||◌, if◌then◌else◌}
use kutsu.Base.Bytes.{Bytes, bytes_eq, bytes_lt}

-- A number is kept as its text.
mutual
  pub data Value : Type 0 where
    null : Value
    bool : Bool → Value
    number : Bytes → Value
    string : Bytes → Value
    array : Items → Value
    object : Members → Value

  pub data Items : Type 0 where
    nil : Items
    item : Value → Items → Items

  pub data Members : Type 0 where
    end : Members
    member : Bytes → Value → Members → Members

unfoldable pub get : Bytes → Members → Option Value
unfolding bytes_eq
get k end = none
get k (member j v m) = if bytes_eq j k then some v else get k m

unfoldable pub insert : Bytes → Value → Members → Members
unfolding bytes_eq bytes_lt
insert k v end = member k v end
insert k v (member j w m) =
    if bytes_eq j k
    then member k v m
    else if bytes_lt k j
    then member k v (member j w m)
    else member j w (insert k v m)

-- Keys are unique in a map.
unfoldable pub remove : Bytes → Members → Members
unfolding bytes_eq
remove k end = end
remove k (member j v m) = if bytes_eq j k then remove k m else member j v (remove k m)

unfoldable pub push : Items → Value → Items
push nil v = item v nil
push (item x xs) v = item x (push xs v)

-- `v == "text"`, and `as_str` compared with a text.
unfoldable pub is_text : Bytes → Value → Bool
unfolding bytes_eq
is_text t (string s) = bytes_eq s t
is_text t _ = false

unfoldable pub any_text : Bytes → Items → Bool
unfolding is_text
any_text t nil = false
any_text t (item x xs) = is_text t x || any_text t xs

unfoldable mutual
  pub depth : Value → ℕ
  depth null = 0
  depth (bool b) = 0
  depth (number n) = 0
  depth (string s) = 0
  depth (array xs) = suc (depth_items xs)
  depth (object m) = suc (depth_members m)

  pub depth_items : Items → ℕ
  depth_items nil = 0
  depth_items (item x xs) = max (depth x) (depth_items xs)

  pub depth_members : Members → ℕ
  depth_members end = 0
  depth_members (member k v m) = max (depth v) (depth_members m)
