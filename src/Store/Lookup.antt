-- ===== src/Store/Lookup.antt =====
-- Reading the record map of src/state.rs after it was changed.
use kutsu.Base.{◌≡◌, refl, inl, inr, false, none, some, List, [], ◌∷◌, arith, Bool-cases}
use kutsu.Base.Bytes.{Bytes, bytes_eq, bytes_eq_refl, bytes_eq_iff}
use kutsu.Store.{CallRecord, get, update, remove}

module _ {V F : Type 0} where
  pub get-remove_self : (m : List (CallRecord V F)) (id : Bytes) → get (remove m id) id ≡ none
  unfolding get remove
  get-remove_self [] id = refl
  get-remove_self (r ∷ m) id = ground (arith, get-remove_self m id)

  pub absent-remove :
      (m : List (CallRecord V F)) (k id : Bytes) → get m id ≡ none → get (remove m k) id ≡ none
  unfolding get remove
  absent-remove [] k id h = refl
  absent-remove (r ∷ m) k id h = ground (arith, absent-remove m k id)

  pub get-update_self :
      (m : List (CallRecord V F)) (id : Bytes) (f : CallRecord V F → CallRecord V F)
      (r : CallRecord V F)
      → ((x : CallRecord V F) → (f x).call_id ≡ x.call_id)
      → get m id ≡ some r
      → get (update m id f) id ≡ some (f r)
  unfolding get update
  get-update_self [] id f r keeps h = ground arith
  get-update_self (x ∷ m) id f r keeps h = ground (arith, get-update_self m id f r keeps, keeps x)

  pub update_absent :
      (m : List (CallRecord V F)) (id : Bytes) (f : CallRecord V F → CallRecord V F)
      → get m id ≡ none
      → update m id f ≡ m
  unfolding get update
  update_absent [] id f h = refl
  update_absent (x ∷ m) id f h = ground (arith, update_absent m id f)

  pub get-update_ne :
      (m : List (CallRecord V F)) (id j : Bytes) (f : CallRecord V F → CallRecord V F)
      → ((x : CallRecord V F) → (f x).call_id ≡ x.call_id)
      → bytes_eq id j ≡ false
      → get (update m id f) j ≡ get m j
  unfolding get update
  get-update_ne [] id j f keeps h = refl
  get-update_ne (x ∷ m) id j f keeps h = ground (
    arith,
    get-update_ne m id j f keeps,
    keeps x,
    (bytes_eq_iff x.call_id id).0,
    (bytes_eq_iff x.call_id j).0,
    bytes_eq_refl j,
  )

  pub get-remove_ne :
      (m : List (CallRecord V F)) (k id : Bytes)
      → bytes_eq id k ≡ false
      → get (remove m k) id ≡ get m id
  unfolding get remove
  get-remove_ne [] k id h = refl
  get-remove_ne (r ∷ m) k id h = ground (
    arith,
    get-remove_ne m k id h,
    (bytes_eq_iff r.call_id id).0,
    (bytes_eq_iff r.call_id k).0,
    bytes_eq_refl k,
  )

  -- No two records share an id, as in any `HashMap`.
  abbrev pub IsUnique : List (CallRecord V F) → Type 0
  IsUnique [] = Unit {0}
  IsUnique (r ∷ m) = (get m r.call_id ≡ none) × IsUnique m

  pub absent-update :
      (m : List (CallRecord V F)) (id j : Bytes) (f : CallRecord V F → CallRecord V F)
      → ((x : CallRecord V F) → (f x).call_id ≡ x.call_id)
      → get m j ≡ none
      → get (update m id f) j ≡ none
  unfolding get update
  absent-update [] id j f keeps h = refl
  absent-update (x ∷ m) id j f keeps h = ground (arith, absent-update m id j f keeps, keeps x)

  pub update-IsUnique :
      (m : List (CallRecord V F)) (id : Bytes) (f : CallRecord V F → CallRecord V F)
      → ((x : CallRecord V F) → (f x).call_id ≡ x.call_id)
      → IsUnique m
      → IsUnique (update m id f)
  unfolding update
  update-IsUnique [] id f keeps u = tt
  update-IsUnique (x ∷ m) id f keeps u = elim (Bool-cases (bytes_eq x.call_id id)) [
    | inl e ↦ rw e (rw (keeps x) u.0, u.1)
    | inr e ↦ rw e (absent-update m id x.call_id f keeps u.0, update-IsUnique m id f keeps u.1)
  ]
