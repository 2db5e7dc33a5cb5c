-- ===== src/Prelude/Fresh.antt =====
-- Keys that are new to a dict, and sets as long as the lists that they come from.
use mathlib.Core.List.{append_assoc, append-nil}
use angelus.Prelude.{
  ◌+◌, ◌≤◌, ◌≡◌, refl, sym, ◌∙◌, ap, false, ◌||◌, List, [], ◌∷◌, ◌++◌, String, eq_iff, arith,
  length, length-append, any, mem, set_add, unique, unique_from, IsUnique, unique_from-IsUnique,
  Bool-cases, inl, inr, subst,
}
use angelus.Prelude.Dict.{Dict, contains, put, pop, pop_all, keys, update, mem-keys}

length-unique_from :
    (seen xs : List String) → length (unique_from seen xs) ≤ length seen + length xs
length-unique_from seen [] = omega arith
length-unique_from seen (x ∷ xs) =
    ground (arith, length-unique_from (set_add x seen) xs, length-append seen (x ∷ []))

-- A set as long as its list lost nothing.
unique_from-append :
    (seen xs : List String)
    → length seen + length xs ≤ length (unique_from seen xs)
    → unique_from seen xs ≡ seen ++ xs
unique_from-append seen [] h = sym (append-nil seen)
unique_from-append seen (x ∷ xs) h = elim (Bool-cases (mem x seen)) [
  | inl old ↦ absurd (
      let k : length seen + length (x ∷ xs) ≤ length (unique_from seen xs) = rw old at h in
      omega (arith, length-unique_from seen xs))
  | inr new ↦
      let k : length seen + length (x ∷ xs) ≤ length (unique_from (seen ++ x ∷ []) xs) =
        rw new at h in
      rw new (
        unique_from-append (seen ++ x ∷ []) xs (omega (arith, length-append seen (x ∷ [])))
        ∙ append_assoc seen (x ∷ []) xs)
]

pub unique_eq : (xs : List String) → length xs ≤ length (unique xs) → (unique xs ≡ xs) × IsUnique xs
unique_eq xs h =
    let e : unique xs ≡ xs = unique_from-append [] xs (omega arith) in
    (e, subst IsUnique e (unique_from-IsUnique [] xs tt))

module _ {ℓ} {V : Type ℓ} where
  pub contains-append :
      (k : String) (d e : Dict V) → contains k (d ++ e) ≡ (contains k d || contains k e)
  contains-append k [] e = refl
  contains-append k ((j, v) ∷ d) e = ground (arith, contains-append k d e)

  pub put_new :
      (k : String) (v : V) (d : Dict V) → contains k d ≡ false → put k v d ≡ d ++ (k, v) ∷ []
  put_new k v [] h = refl
  put_new k v ((j, w) ∷ d) h = ground (arith, put_new k v d)

  pub pop_new : (k : String) (d : Dict V) → contains k d ≡ false → pop k d ≡ d
  pop_new k [] h = refl
  pop_new k ((j, w) ∷ d) h = ground (arith, pop_new k d)

  pub pop-append : (k : String) (d e : Dict V) → pop k (d ++ e) ≡ pop k d ++ pop k e
  pop-append k [] e = refl
  pop-append k ((j, w) ∷ d) e = ground (arith, pop-append k d e)

  none_among :
      (k : String) (v : V) (d : Dict V) (ks : List String)
      → any (λ j. contains j d) ks ≡ false
      → mem k ks ≡ false
      → any (λ j. contains j (d ++ (k, v) ∷ [])) ks ≡ false
  none_among k v d [] h m = refl
  none_among k v d (j ∷ ks) h m =
      ground (arith, none_among k v d ks, contains-append j d ((k, v) ∷ []), eq_iff j k, eq_iff k j)

  -- An update by new and distinct keys appends its entries.
  pub update_new :
      (d e : Dict V)
      → any (λ k. contains k d) (keys e) ≡ false
      → IsUnique (keys e)
      → update d e ≡ d ++ e
  update_new d [] h u = sym (append-nil d)
  update_new d ((k, v) ∷ e) h u = rw (put_new k v d (ground arith)) (
      update_new (d ++ (k, v) ∷ []) e (none_among k v d (keys e) (ground arith) u.0) u.1
      ∙ append_assoc d ((k, v) ∷ []) e)

  pop_all-append :
      (ks : List String) (d e : Dict V)
      → any (λ k. contains k d) ks ≡ false
      → pop_all ks (d ++ e) ≡ d ++ pop_all ks e
  pop_all-append [] d e h = refl
  pop_all-append (k ∷ ks) d e h =
      rw (pop-append k d e)
        (rw (pop_new k d (ground arith)) (pop_all-append ks d (pop k e) (ground arith)))

  pub pop_all-nil : (ks : List String) → pop_all {V = V} ks [] ≡ []
  pop_all-nil [] = refl
  pop_all-nil (k ∷ ks) = pop_all-nil ks

  pop_all-keys : (e : Dict V) → IsUnique (keys e) → pop_all (keys e) e ≡ []
  pop_all-keys [] u = refl
  pop_all-keys ((k, v) ∷ e) u =
      let p : pop k ((k, v) ∷ e) ≡ e = ground (arith, eq_iff k k, pop_new k e, mem-keys k e) in
      ap (pop_all (keys e)) p ∙ pop_all-keys e u.1

  -- Popping the new keys of an update gives the dict back.
  pub pop_all-append_keys :
      (d e : Dict V)
      → any (λ k. contains k d) (keys e) ≡ false
      → IsUnique (keys e)
      → pop_all (keys e) (d ++ e) ≡ d
  pop_all-append_keys d e h u = pop_all-append (keys e) d e h ∙ rw (pop_all-keys e u) (append-nil d)
