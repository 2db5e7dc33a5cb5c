-- ===== src/Tools/Lifecycle.antt =====
-- Registration and removal of a tool provider: what each leaves behind.
use mathlib.Core.List.{append-nil}
use angelus.Prelude.{
  ◌+◌, ◌≡◌, refl, sym, ◌∙◌, subst, inl, inr, false, some, List, [], ◌∷◌, String, eq_refl, arith,
  any, unique, IsUnique, Bool-cases, Ensures,
}
use angelus.Prelude.Dict.{Dict, get, contains, put, pop, pop_all, keys, update, get-put}
use angelus.Prelude.Fresh.{unique_eq, put_new, pop_new, pop-append, update_new, pop_all-append_keys}
use angelus.Tools.Types.{ToolCategory, ToolDefinition}
use angelus.Tools.Registry.{
  ToolProviderRegistration, ToolRegistry, category_ids, definition_ids, by_category_id,
  by_definition_id, malformed, is_foreign, register, unregister,
}

keys-by_category_id : (cs : List ToolCategory) → keys (by_category_id cs) ≡ category_ids cs
keys-by_category_id [] = refl
keys-by_category_id (c ∷ cs) = rw (keys-by_category_id cs)

keys-by_definition_id : (ds : List ToolDefinition) → keys (by_definition_id ds) ≡ definition_ids ds
keys-by_definition_id [] = refl
keys-by_definition_id (d ∷ ds) = rw (keys-by_definition_id ds)

well_formed : (ids : List String) → malformed ids ≡ false → (unique ids ≡ ids) × IsUnique ids
well_formed ids h = unique_eq ids (ground arith)

module _ {ℓ} {V : Type ℓ} where
  -- Entries under new and distinct keys are added by `update` and removed by `pop`.
  update_pop :
      (d e : Dict V) (ids : List String)
      → keys e ≡ ids
      → malformed ids ≡ false
      → any (λ k. contains k d) (unique ids) ≡ false
      → pop_all ids (update d e) ≡ d
  update_pop d e ids same good new =
      let (w, u) = well_formed ids good in
      let fresh : any (λ k. contains k d) (keys e) ≡ false =
        subst (λ l. any (λ k. contains k d) l ≡ false) (w ∙ sym same) new in
      let distinct : IsUnique (keys e) = subst IsUnique (sym same) u in
      subst (λ l. pop_all l (update d e) ≡ d) same
        (rw (update_new d e fresh distinct) (pop_all-append_keys d e fresh distinct))

  pop-put : (k : String) (v : V) (d : Dict V) → contains k d ≡ false → pop k (put k v d) ≡ d
  pop-put k v d new =
      rw (put_new k v d new)
        (pop-append k d ((k, v) ∷ []) ∙ rw (pop_new k d new) (rw (eq_refl k) (append-nil d)))

-- The state after `register`, once its checks have passed.
abbrev added : {P : Type 0} → ToolProviderRegistration P → ToolRegistry P → ToolRegistry P
added r g = record {
  providers = put r.id r g.providers;
  categories = update g.categories (by_category_id r.categories);
  definitions = update g.definitions (by_definition_id r.definitions);
  revision = g.revision + 1;
}

module _ {P : Type 0} (r : ToolProviderRegistration P) (g : ToolRegistry P) where
  unregister-added :
      contains r.id g.providers ≡ false
      → malformed (category_ids r.categories) ≡ false
      → any (λ id. contains id g.categories) (unique (category_ids r.categories)) ≡ false
      → malformed (definition_ids r.definitions) ≡ false
      → any (λ id. contains id g.definitions) (unique (definition_ids r.definitions)) ≡ false
      → unregister r.id (added r g) ≡ record g { revision = g.revision + 1 + 1 }
  unfolding unregister
  unregister-added new cats new_cats defs new_defs =
      let found : get r.id (put r.id r g.providers) ≡ some r =
        get-put r.id r.id r g.providers ∙ rw (eq_refl r.id) in
      rw found (λ i. record {
        providers = pop-put r.id r g.providers new i;
        categories =
            update_pop g.categories (by_category_id r.categories) (category_ids r.categories)
              (keys-by_category_id r.categories) cats new_cats i;
        definitions =
            update_pop g.definitions (by_definition_id r.definitions) (definition_ids r.definitions)
              (keys-by_definition_id r.definitions) defs new_defs i;
        revision = g.revision + 1 + 1;
      })

  -- Removing a provider that was just registered gives back the providers, categories and
  -- definitions that were there, in their order; the revision has moved twice.
  pub register-unregister :
      Ensures (λ h. unregister r.id h ≡ record g { revision = g.revision + 1 + 1 }) (register r g)
  unfolding register
  register-unregister = elim (Bool-cases (contains r.id g.providers)) [
    | inl old ↦ rw old tt
    | inr new ↦ elim (Bool-cases (malformed (category_ids r.categories))) [
      | inl bad ↦ rw (new, bad) tt
      | inr cats ↦
          elim (Bool-cases
            (any (λ id. contains id g.categories) (unique (category_ids r.categories)))) [
              | inl taken ↦ rw (new, cats, taken) tt
              | inr new_cats ↦ elim (Bool-cases (malformed (definition_ids r.definitions))) [
                | inl bad ↦ rw (new, cats, new_cats, bad) tt
                | inr defs ↦
                    elim (Bool-cases (
                      any (λ id. contains id g.definitions)
                        (unique (definition_ids r.definitions)))) [
                          | inl taken ↦ rw (new, cats, new_cats, defs, taken) tt
                          | inr new_defs ↦
                              elim (Bool-cases (
                                any (is_foreign r.id (unique (category_ids r.categories)))
                                  r.definitions)) [
                                    | inl foreign ↦
                                        rw (new, cats, new_cats, defs, new_defs, foreign) tt
                                    | inr own ↦
                                        rw (new, cats, new_cats, defs, new_defs, own)
                                          (unregister-added new cats new_cats defs new_defs)
                                  ]
                        ]
              ]
            ]
    ]
  ]
