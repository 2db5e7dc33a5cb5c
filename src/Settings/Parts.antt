-- ===== src/Settings/Parts.antt =====
-- Reading back the parts of a document: choices, lists and members, and the branches of a union.
use angelus.Prelude.{
  ℕ, ◌≡◌, refl, ap, sym, ◌∙◌, arith, Bool, true, false, List, [], ◌∷◌, if◌then◌else◌, leb, any, ok,
  err, ◌>>◌, inl, inr, Bool-cases, eq_iff, eq_refl,
}
use angelus.Settings.Json.{ℤ, Float, Json, Jsons, Members, nil, cons, end, member, Decoded}
use angelus.Settings.Schema.{
  Scalar, Annotation, Annotations, also, Value, Values, no_values, value, Entries, no_entries,
  entry, is_none_type, scalar_json, encode_value, encode_items, encode_entries, from_json,
}
use angelus.Settings.Decode.{
  decode_all, decode_entries, scalar_eq, enum_lookup, decode_value, decode_branches,
}
use angelus.Settings.Encoding.{same_int_refl, same_int→eq}
use angelus.Settings.Fits.{Chosen, AllFit, EntriesFit, Refuses}

-- A choice that equals the document of another is the other.
scalar_eq-json :
    (of_int : ℤ → Float) (float_eq : Float → ℤ → Bool) (r s : Scalar)
    → scalar_eq of_int float_eq r (scalar_json s) ≡ true
    → r ≡ s
unfolding scalar_eq
scalar_eq-json of_int float_eq (Scalar.text r) (Scalar.text s) h = ground (arith, eq_iff r s)
scalar_eq-json of_int float_eq (Scalar.integer n) (Scalar.integer m) h =
    ap Scalar.integer (same_int→eq n m h)
scalar_eq-json of_int float_eq (Scalar.text r) (Scalar.integer m) h = cc
scalar_eq-json of_int float_eq (Scalar.integer n) (Scalar.text s) h = cc

scalar_eq_refl :
    (of_int : ℤ → Float) (float_eq : Float → ℤ → Bool) (s : Scalar)
    → scalar_eq of_int float_eq s (scalar_json s) ≡ true
unfolding scalar_eq
scalar_eq_refl of_int float_eq (Scalar.text r) = eq_refl r
scalar_eq_refl of_int float_eq (Scalar.integer n) = same_int_refl n

pub >>-eq-ok : (r s : Decoded (Unit {0})) → (r >> s) ≡ ok tt → (r ≡ ok tt) × (s ≡ ok tt)
>>-eq-ok (ok tt) s h = (refl, h)
>>-eq-ok (err e) s h = cc

pub rest_supported :
    (b : Bool) (r s : Decoded (Unit {0})) → (if b then s else (r >> s)) ≡ ok tt → s ≡ ok tt
rest_supported true r s h = h
rest_supported false r s h = (>>-eq-ok r s h).1

pub leb_refl : (n : ℕ) → leb n n ≡ true
leb_refl n = ground arith

pub encode_value-scalar :
    (s : Scalar) → encode_value (from_json (scalar_json s)) ≡ ok (scalar_json s)
unfolding encode_value from_json
encode_value-scalar (Scalar.text t) = refl
encode_value-scalar (Scalar.integer n) = refl

-- `P` is what a value of the list fits, and `f` reads it back.
pub all_restore :
    (P : Value → Type 0) (f : Json → Decoded Value)
    → ((v : Value) → P v → (j : Json) × (encode_value v ≡ ok j) × (f j ≡ ok v))
    → (vs : Values) → AllFit P vs
    → (js : Jsons) × (encode_items vs ≡ ok js) × (decode_all f js ≡ ok vs)
unfolding encode_value decode_all
all_restore P f one no_values fit = (nil, refl, refl)
all_restore P f one (value v vs) (p, ps) =
    let (j, e, d) = one v p in
    let (js, es, ds) = all_restore P f one vs ps in (cons j js, rw (e, es) refl, rw (d, ds) refl)

pub entries_restore :
    (P : Value → Type 0) (f : Json → Decoded Value)
    → ((v : Value) → P v → (j : Json) × (encode_value v ≡ ok j) × (f j ≡ ok v))
    → (vs : Entries) → EntriesFit P vs
    → (ms : Members) × (encode_entries vs ≡ ok ms) × (decode_entries f ms ≡ ok vs)
unfolding encode_value decode_entries
entries_restore P f one no_entries fit = (end, refl, refl)
entries_restore P f one (entry key v vs) (p, ps) =
    let (j, e, d) = one v p in
    let (ms, es, ds) = entries_restore P f one vs ps in
    (member key j ms, rw (e, es) refl, rw (d, ds) refl)

module _ (of_int : ℤ → Float) (float_eq : Float → ℤ → Bool) where
  Chosen-later :
      (s r : Scalar) (scalars : List Scalar)
      → scalar_eq of_int float_eq r (scalar_json s) ≡ false
      → Chosen s (r ∷ scalars)
      → Chosen s scalars
  Chosen-later s r scalars p (inl e) =
      let t = scalar_eq_refl of_int float_eq s in
      let q : scalar_eq of_int float_eq s (scalar_json s) ≡ false =
        ap (λ x. scalar_eq of_int float_eq x (scalar_json s)) e ∙ p in
      absurd (cc)
  Chosen-later s r scalars p (inr c) = c

  pub enum_lookup-Chosen :
      (s : Scalar) (scalars : List Scalar)
      → Chosen s scalars
      → enum_lookup of_int float_eq scalars (scalar_json s) ≡ ok (Value.enum_member s)
  unfolding enum_lookup
  enum_lookup-Chosen s [] c = absurd c
  enum_lookup-Chosen s (r ∷ scalars) c =
      elim (Bool-cases (scalar_eq of_int float_eq r (scalar_json s))) [
        | inl p ↦ rw p (ap (λ t. ok (Value.enum_member t)) (scalar_eq-json of_int float_eq r s p))
        | inr p ↦ rw p (enum_lookup-Chosen s scalars (Chosen-later s r scalars p c))
      ]

  pub literal-Chosen :
      (s : Scalar) (scalars : List Scalar)
      → Chosen s scalars
      → any (λ r. scalar_eq of_int float_eq r (scalar_json s)) scalars ≡ true
  literal-Chosen s [] c = absurd c
  literal-Chosen s (r ∷ scalars) (inl e) = rw (sym e, scalar_eq_refl of_int float_eq s) refl
  literal-Chosen s (r ∷ scalars) (inr c) = rw (literal-Chosen s scalars c) (ground arith)

  pub skip_branch :
      (a : Annotation) (arguments : Annotations) (v : Value) (j : Json)
      → Refuses of_int float_eq a v
      → encode_value v ≡ ok j
      → decode_branches of_int float_eq (also a arguments) j
        ≡ decode_branches of_int float_eq arguments j
  unfolding decode_value
  skip_branch a arguments v j (inl n) e = rw n refl
  skip_branch a arguments v j (inr r) e =
      let (x, d) = r j e in
      elim (Bool-cases (is_none_type a)) [ inl p ↦ rw p refl | inr p ↦ rw (p, d) refl ]
