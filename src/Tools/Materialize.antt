-- ===== src/Tools/Materialize.antt =====
-- The names of the tools that `ToolRegistry.materialize` hands out.
use angelus.Prelude.{
  ◌≡◌, refl, sym, ◌∙◌, subst, inl, inr, Bool, true, ◌||◌, List, [], ◌∷◌, ◌++◌, String, ◌==◌, eq_iff,
  arith, mem, IsUnique, append_one-IsUnique, mem-append, Bool-cases,
}
use angelus.Prelude.Dict.{values}
use angelus.Tools.Registry.{
  ToolProviderRegistration, ToolRegistry, take_new, materialize_from, materialize,
}

module _ {P T : Type 0} (name : T → String) (provided : P → List T) where
  abbrev pub names : List T → List String
  names [] = []
  names (t ∷ ts) = name t ∷ names ts

  names-append : (xs ys : List T) → names (xs ++ ys) ≡ names xs ++ names ys
  names-append [] ys = refl
  names-append (x ∷ xs) ys = rw (names-append xs ys)

  -- The set of names seen is the list of names taken, and no name stands twice.
  abbrev IsTaken : List T × List String → Type 0
  IsTaken (tools, seen) = (names tools ≡ seen) × IsUnique seen

  take_new-IsTaken :
      (ts tools : List T) (seen : List String)
      → IsTaken (tools, seen)
      → IsTaken (take_new name provided ts tools seen)
  unfolding take_new
  take_new-IsTaken [] tools seen h = h
  take_new-IsTaken (t ∷ ts) tools seen h = elim (Bool-cases (mem (name t) seen)) [
    | inl old ↦ rw old (take_new-IsTaken ts tools seen h)
    | inr new ↦ rw new (
        take_new-IsTaken ts (tools ++ t ∷ []) (seen ++ name t ∷ [])
          (names-append tools (t ∷ []) ∙ rw (h.0), append_one-IsUnique (name t) seen new h.1))
  ]

  -- Names seen stay seen, and every name offered is seen.
  mem-take_new :
      (x : String) (ts tools : List T) (seen : List String)
      → mem x (take_new name provided ts tools seen).1 ≡ (mem x seen || mem x (names ts))
  unfolding take_new
  mem-take_new x [] tools seen = ground arith
  mem-take_new x (t ∷ ts) tools seen = elim (Bool-cases (mem (name t) seen)) [
    | inl old ↦
        rw old (mem-take_new x ts tools seen ∙ absorbed x (name t) seen (mem x (names ts)) old)
    | inr new ↦ rw new (
        mem-take_new x ts (tools ++ t ∷ []) (seen ++ name t ∷ [])
        ∙ ground (arith, mem-append x seen (name t ∷ [])))
  ]
    where
      absorbed :
          (y k : String) (s : List String) (rest : Bool)
          → mem k s ≡ true
          → (mem y s || rest) ≡ (mem y s || (k == y || rest))
      absorbed y k s rest m = elim (Bool-cases (k == y)) [
        | inl e ↦
            rw e (subst (λ z. (mem z s || rest) ≡ (mem z s || true)) ((eq_iff k y).0 e) (rw m))
        | inr e ↦ rw e
      ]

  -- The names that the providers offer.
  abbrev pub offered : List (ToolProviderRegistration P) → List String
  offered [] = []
  offered (r ∷ rs) = names (provided r.provider) ++ offered rs

  materialize_from-IsTaken :
      (rs : List (ToolProviderRegistration P)) (tools : List T) (seen : List String)
      → IsTaken (tools, seen)
      → IsUnique (names (materialize_from name provided rs tools seen))
        × ((x : String)
            → mem x (names (materialize_from name provided rs tools seen))
              ≡ (mem x seen || mem x (offered rs)))
  unfolding materialize_from
  materialize_from-IsTaken [] tools seen h =
      (subst IsUnique (sym h.0) h.1, λ x. rw h.0 (ground arith))
  materialize_from-IsTaken (r ∷ rs) tools seen h =
      let step = take_new name provided (provided r.provider) tools seen in
      let (u, m) =
        materialize_from-IsTaken rs step.0 step.1
          (take_new-IsTaken (provided r.provider) tools seen h) in
      (
        u,
        λ x.
            m x
            ∙ ground (
              arith,
              mem-take_new x (provided r.provider) tools seen,
              mem-append x (names (provided r.provider)) (offered rs),
            ),
      )

  -- The tools that are handed out have distinct names, and these are the names that some provider
  -- of the registry offers.
  pub materialize-names :
      (g : ToolRegistry P)
      → IsUnique (names (materialize name provided g))
        × ((x : String)
            → mem x (names (materialize name provided g)) ≡ mem x (offered (values g.providers)))
  unfolding materialize
  materialize-names g = materialize_from-IsTaken (values g.providers) [] [] (refl, tt)
