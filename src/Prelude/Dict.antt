-- ===== src/Prelude/Dict.antt =====
-- Python's `dict` with text keys, in the order of insertion.
use angelus.Prelude.{
  ◌≡◌, refl, Bool, false, ◌||◌, Option, none, some, List, [], ◌∷◌, String, ◌==◌, eq_iff, arith,
  if◌then◌else◌, mem, IsUnique,
}

abbrev pub Dict {ℓ} : Type ℓ → Type ℓ
Dict V = List (String × V)

module _ {ℓ} {V : Type ℓ} where
  -- `d.get(k)`
  abbrev pub get : String → Dict V → Option V
  get k [] = none
  get k ((j, v) ∷ d) = if j == k then some v else get k d

  -- `k in d`
  abbrev pub contains : String → Dict V → Bool
  contains k [] = false
  contains k ((j, v) ∷ d) = j == k || contains k d

  -- `d[k] = v`: a key that is there keeps its place.
  abbrev pub put : String → V → Dict V → Dict V
  put k v [] = (k, v) ∷ []
  put k v ((j, w) ∷ d) = if j == k then (k, v) ∷ d else (j, w) ∷ put k v d

  -- `d.pop(k, None)`
  abbrev pub pop : String → Dict V → Dict V
  pop k [] = []
  pop k ((j, v) ∷ d) = let rest = pop k d in if j == k then rest else (j, v) ∷ rest

  abbrev pub keys : Dict V → List String
  keys [] = []
  keys ((k, _) ∷ d) = k ∷ keys d

  abbrev pub values : Dict V → List V
  values [] = []
  values ((_, v) ∷ d) = v ∷ values d

  -- `d.update(e)`
  abbrev pub update : Dict V → Dict V → Dict V
  update d [] = d
  update d ((k, v) ∷ e) = update (put k v d) e

  -- `for k in ks: d.pop(k, None)`
  abbrev pub pop_all : List String → Dict V → Dict V
  pop_all [] d = d
  pop_all (k ∷ ks) d = pop_all ks (pop k d)

  pub get-put :
      (j k : String) (v : V) (d : Dict V) → get j (put k v d) ≡ (if k == j then some v else get j d)
  get-put j k v [] = refl
  get-put j k v ((i, w) ∷ d) = ground (arith, eq_iff k j, eq_iff i k, eq_iff i j, get-put j k v d)

  pub get-pop : (j k : String) (d : Dict V) → get j (pop k d) ≡ (if k == j then none else get j d)
  get-pop j k [] = ground arith
  get-pop j k ((i, w) ∷ d) = ground (arith, eq_iff k j, eq_iff i k, eq_iff i j, get-pop j k d)

  pub contains-put :
      (j k : String) (v : V) (d : Dict V) → contains j (put k v d) ≡ (k == j || contains j d)
  contains-put j k v [] = refl
  contains-put j k v ((i, w) ∷ d) =
      ground (arith, eq_iff k j, eq_iff i k, eq_iff i j, contains-put j k v d)

  pub contains-pop :
      (j k : String) (d : Dict V) → contains j (pop k d) ≡ (if k == j then false else contains j d)
  contains-pop j k [] = ground arith
  contains-pop j k ((i, w) ∷ d) =
      ground (arith, eq_iff k j, eq_iff i k, eq_iff i j, contains-pop j k d)

  pub mem-keys : (j : String) (d : Dict V) → mem j (keys d) ≡ contains j d
  mem-keys j [] = refl
  mem-keys j ((i, w) ∷ d) = ground (arith, mem-keys j d)

  pub put-IsUnique :
      (k : String) (v : V) (d : Dict V) → IsUnique (keys d) → IsUnique (keys (put k v d))
  put-IsUnique k v [] u = (refl, tt)
  put-IsUnique k v ((i, w) ∷ d) u = ground (
    arith,
    put-IsUnique k v d,
    eq_iff i k,
    eq_iff k i,
    mem-keys i d,
    mem-keys i (put k v d),
    contains-put i k v d,
  )

  pub pop-IsUnique : (k : String) (d : Dict V) → IsUnique (keys d) → IsUnique (keys (pop k d))
  pop-IsUnique k [] u = tt
  pop-IsUnique k ((i, w) ∷ d) u = ground (
    arith,
    pop-IsUnique k d,
    eq_iff i k,
    eq_iff k i,
    mem-keys i d,
    mem-keys i (pop k d),
    contains-pop i k d,
  )
