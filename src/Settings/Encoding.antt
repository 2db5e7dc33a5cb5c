-- ===== src/Settings/Encoding.antt =====
-- What encoding does to documents as they are read, and to their keys.
use angelus.Prelude.{
  ◌≡◌, refl, arith, true, false, some, List, [], ◌∷◌, String, all, mem, ok, err, ◌>>=◌, ◌>>◌, ◌≢◌,
  IsUnique, eq_iff, eq_refl,
}
use angelus.Settings.Json.{
  ℤ, pos, negsuc, Json, Jsons, Members, nil, cons, end, member, Decoded, get, keys, validate_json,
  validate_items, validate_members,
}
use angelus.Settings.Schema.{
  Scalar, Value, persisted_fields, assert_fields, encode_value, encode_fields, encode_items,
  encode_entries, from_json, from_items, from_members,
}
use angelus.Settings.Decode.{same_int, is_null}

-- Bind, at a result that is a value.
pub bind-gives :
    {A B : Type 0} (m : Decoded A) (f : A → Decoded B) {a : A} → m ≡ ok a → (m >>= f) ≡ f a
bind-gives m f e = rw e refl

all-mem-cons :
    (x : String) (xs ys : List String)
    → all (λ k. mem k xs) ys ≡ true
    → all (λ k. mem k (x ∷ xs)) ys ≡ true
all-mem-cons x xs [] h = refl
all-mem-cons x xs (y ∷ ys) h = ground (arith, all-mem-cons x xs ys)

pub all-mem_self : (xs : List String) → all (λ k. mem k xs) xs ≡ true
all-mem_self [] = refl
all-mem_self (x ∷ xs) = rw (eq_refl x) (all-mem-cons x xs xs (all-mem_self xs))

-- The members of an object, as they are looked up.
abbrev pub Lookups : Members → Members → Type 0
Lookups raw end = Unit
Lookups raw (member key j ms) = (get key raw ≡ some j) × Lookups raw ms

Lookups-member :
    (k : String) (j : Json) (raw ms : Members)
    → mem k (keys ms) ≡ false
    → Lookups raw ms
    → Lookups (member k j raw) ms
Lookups-member k j raw end h l = tt
Lookups-member k j raw (member k' j' ms) h (l, ls) =
    (ground (arith, eq_iff k k', eq_iff k' k), Lookups-member k j raw ms (ground arith) ls)

pub Lookups-self : (ms : Members) → IsUnique (keys ms) → Lookups ms ms
Lookups-self end u = tt
Lookups-self (member k j ms) (h, u) =
    (rw (eq_refl k) refl, Lookups-member k j ms ms h (Lookups-self ms u))

-- A document whose numbers are finite is encoded as itself.
mutual
  unfolding validate_json encode_value from_json

  pub encode_value-from_json :
      (j : Json) → validate_json j ≡ ok tt → encode_value (from_json j) ≡ ok j
  encode_value-from_json Json.null h = refl
  encode_value-from_json (Json.boolean b) h = refl
  encode_value-from_json (Json.integer n) h = refl
  encode_value-from_json (Json.text t) h = refl
  encode_value-from_json (Json.number f) h = ground arith
  encode_value-from_json (Json.array items) h =
      bind-gives (encode_items (from_items items)) (λ js. ok (Json.array js))
        (encode_items-from_items items h)
  encode_value-from_json (Json.object ms) h =
      bind-gives (encode_entries (from_members ms)) (λ es. ok (Json.object es))
        (encode_entries-from_members ms h)

  encode_items-from_items :
      (js : Jsons) → validate_items js ≡ ok tt → encode_items (from_items js) ≡ ok js
  encode_items-from_items nil h = refl
  encode_items-from_items (cons j js) h =
      ground (arith, encode_value-from_json j, encode_items-from_items js)

  encode_entries-from_members :
      (ms : Members) → validate_members ms ≡ ok tt → encode_entries (from_members ms) ≡ ok ms
  encode_entries-from_members end h = refl
  encode_entries-from_members (member key j ms) h =
      ground (arith, encode_value-from_json j, encode_entries-from_members ms)

array-not_null :
    (r : Decoded Jsons) {j : Json} → (r >>= λ js. ok (Json.array js)) ≡ ok j → is_null j ≡ false
array-not_null (ok js) h = ground arith
array-not_null (err e) h = cc

object-not_null :
    (r : Decoded Members) {j : Json} → (r >>= λ ms. ok (Json.object ms)) ≡ ok j → is_null j ≡ false
object-not_null (ok ms) h = ground arith
object-not_null (err e) h = cc

after_check-not_null :
    (r s : Decoded (Unit {0})) (t : Decoded Members) {j : Json}
    → (r >> s >> (t >>= λ ms. ok (Json.object ms))) ≡ ok j
    → is_null j ≡ false
after_check-not_null (ok _) (ok _) t h = object-not_null t h
after_check-not_null (ok _) (err e) t h = cc
after_check-not_null (err e) s t h = cc

-- Only `None` is encoded as null.
pub encode_value-not_null :
    (v : Value) {j : Json} → v ≢ Value.null → encode_value v ≡ ok j → is_null j ≡ false
unfolding encode_value
encode_value-not_null Value.null n h = absurd (n refl)
encode_value-not_null Value.unencodable n h = cc
encode_value-not_null (Value.boolean b) n h = ground arith
encode_value-not_null (Value.integer b) n h = ground arith
encode_value-not_null (Value.number f) n h = ground arith
encode_value-not_null (Value.text t) n h = ground arith
encode_value-not_null (Value.path t) n h = ground arith
encode_value-not_null (Value.enum_member (Scalar.text t)) n h = ground arith
encode_value-not_null (Value.enum_member (Scalar.integer t)) n h = ground arith
encode_value-not_null (Value.list vs) n h = array-not_null (encode_items vs) h
encode_value-not_null (Value.tuple vs) n h = array-not_null (encode_items vs) h
encode_value-not_null (Value.dict es) n h = object-not_null (encode_entries es) h
encode_value-not_null (Value.instance_of fields vs) n h =
    after_check-not_null (persisted_fields fields) (assert_fields fields) (encode_fields vs fields)
      h

pub same_int_refl : (n : ℤ) → same_int n n ≡ true
same_int_refl (pos n) = ground arith
same_int_refl (negsuc n) = ground arith

pub same_int→eq : (n m : ℤ) → same_int n m ≡ true → n ≡ m
same_int→eq (pos n) (pos m) h = ground arith
same_int→eq (negsuc n) (negsuc m) h = ground arith
same_int→eq (pos n) (negsuc m) h = cc
same_int→eq (negsuc n) (pos m) h = cc
