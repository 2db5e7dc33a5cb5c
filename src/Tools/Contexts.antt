-- ===== src/Tools/Contexts.antt =====
-- context_module/registry.py: the sources that each Agent's Composer is built from.
use mathlib.Core.List.{append-nil, append_assoc}
use angelus.Prelude.{
  ◌≡◌, refl, sym, Bool, true, false, ◌&&◌, ◌||◌, not, List, [], ◌∷◌, ◌++◌, String, is_blank,
  if◌then◌else◌, any, all, mem, Bool-cases, inl, inr, Result, ok, ◌>>◌, raise_if, Ensures,
}
use angelus.Prelude.Dict.{Dict, contains, put, values}
use angelus.Prelude.Fresh.{put_new}
use angelus.Tools.Policy.{ToolPolicy, allows}

-- The checks of `register`, in their order.
pub data RegistrationError : Type 0 where
  empty_id duplicate_id invalid_roles invalid_gates : RegistrationError

-- A factory is an object of the host: `F` stands for it.
pub record ContextProviderRegistration (F : Type 0) : Type 0 where
  pub id : String
  pub factory : F
  pub roles : List String
  pub gates : List (String × String)

-- What the registry reads of a request; the Session, workspace and Agent name go to the factory.
pub record ContextProviderRequest : Type 0 where
  pub policy : ToolPolicy
  pub role : String

abbrev pub ContextProviderRegistry : Type 0 → Type 0
ContextProviderRegistry F = Dict (ContextProviderRegistration F)

abbrev pub no_roles : List String → Bool
no_roles [] = true
no_roles (_ ∷ _) = false

abbrev pub bad_gate : String × String → Bool
bad_gate (category_id, tool_id) = is_blank category_id || is_blank tool_id

abbrev pub gate_open : ToolPolicy → String × String → Bool
gate_open policy (category_id, tool_id) = allows policy category_id tool_id

module _ {F : Type 0} where
  unfoldable pub register :
      ContextProviderRegistration F
      → ContextProviderRegistry F
      → Result RegistrationError (ContextProviderRegistry F)
  register r g = do
    raise_if (is_blank r.id) empty_id
    raise_if (contains r.id g) duplicate_id
    raise_if (no_roles r.roles || any is_blank r.roles) invalid_roles
    raise_if (any bad_gate r.gates) invalid_gates
    ok (put r.id r g)

  -- The role receives the source, and the policy opens each of its gates.
  abbrev pub is_authorized : ContextProviderRequest → ContextProviderRegistration F → Bool
  is_authorized q r = mem q.role r.roles && all (gate_open q.policy) r.gates

  -- What a factory builds for the request is the parameter `build`.
  module _ {C : Type 0} (build : F → ContextProviderRequest → List C) where
    unfoldable pub materialize_from :
        ContextProviderRequest → List (ContextProviderRegistration F) → List C
    materialize_from q [] = []
    materialize_from q (r ∷ rs) =
        let rest = materialize_from q rs in
        if not (mem q.role r.roles)
        then rest
        else if not (all (gate_open q.policy) r.gates)
        then rest
        else build r.factory q ++ rest

    unfoldable pub materialize : ContextProviderRequest → ContextProviderRegistry F → List C
    unfolding materialize_from
    materialize q g = materialize_from q (values g)

-- What one registration contributes to a request.
module _ {F C : Type 0} (build : F → ContextProviderRequest → List C) where
  abbrev pub contribution : ContextProviderRequest → ContextProviderRegistration F → List C
  contribution q r = if is_authorized q r then build r.factory q else []

  materialize_from-append :
      (q : ContextProviderRequest) (rs : List (ContextProviderRegistration F))
      (r : ContextProviderRegistration F)
      → materialize_from build q (rs ++ r ∷ []) ≡ materialize_from build q rs ++ contribution q r
  unfolding materialize_from
  materialize_from-append q [] r = elim (Bool-cases (mem q.role r.roles)) [
    | inl role ↦ elim (Bool-cases (all (gate_open q.policy) r.gates)) [
      | inl opened ↦ rw (role, opened) (append-nil (build r.factory q))
      | inr closed ↦ rw (role, closed)
    ]
    | inr role ↦ rw role
  ]
  materialize_from-append q (s ∷ rs) r = elim (Bool-cases (mem q.role s.roles)) [
    | inl role ↦ elim (Bool-cases (all (gate_open q.policy) s.gates)) [
      | inl opened ↦
          rw (role, opened)
            (rw (materialize_from-append q rs r) (
              sym (
                append_assoc (build s.factory q) (materialize_from build q rs) (contribution q r))))
      | inr closed ↦ rw (role, closed) (materialize_from-append q rs r)
    ]
    | inr role ↦ rw role (materialize_from-append q rs r)
  ]

  values-append :
      (d : ContextProviderRegistry F) (k : String) (r : ContextProviderRegistration F)
      → values (d ++ (k, r) ∷ []) ≡ values d ++ r ∷ []
  values-append [] k r = refl
  values-append ((j, s) ∷ d) k r = rw (values-append d k r)

  -- After an accepted registration, every request gets the sources that it got before, in their
  -- order, and then those of the new registration if its role receives them and the policy opens
  -- all gates.
  pub materialize-register :
      (q : ContextProviderRequest) (r : ContextProviderRegistration F)
      (g : ContextProviderRegistry F)
      → Ensures
          (λ h. materialize build q h ≡ materialize build q g ++ contribution q r)
          (register r g)
  unfolding register materialize
  materialize-register q r g = elim (Bool-cases (is_blank r.id)) [
    | inl blank ↦ rw blank tt
    | inr named ↦ elim (Bool-cases (contains r.id g)) [
      | inl old ↦ rw (named, old) tt
      | inr new ↦ elim (Bool-cases (no_roles r.roles || any is_blank r.roles)) [
        | inl bad ↦ rw (named, new, bad) tt
        | inr roles ↦ elim (Bool-cases (any bad_gate r.gates)) [
          | inl bad ↦ rw (named, new, roles, bad) tt
          | inr gates ↦
              rw (named, new, roles, gates)
                (rw (put_new r.id r g new)
                  (rw (values-append g r.id r) (materialize_from-append q (values g) r)))
        ]
      ]
    ]
  ]
