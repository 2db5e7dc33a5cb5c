-- ===== src/Hub/Requests.antt =====
-- Sequences of requests on the definitions of a hub (service.py).
use angelus.Prelude.{
  ◌≡◌, refl, sym, subst, Bool, true, false, not, List, [], ◌∷◌, ◌++◌, String, ◌==◌, eq_iff, arith,
  is_some, if◌then◌else◌, leb, length, mem, IsUnique, append_one-IsUnique, Result, ok, err, Ensures,
  Ensures-raise_if, Ensures-bind, ◌>>◌,
}
use angelus.Hub.Types.{ExternalAgentDefinition}
use angelus.Hub.Store.{ExternalAgentHubStore, get, others, put}
use angelus.Hub.Store
use angelus.Hub.Adapters.{HubError}
use angelus.Hub.Service.{validate, create, replace, removed, remove}
use angelus.Hub.Service

abbrev pub ids : ExternalAgentHubStore → List String
ids [] = []
ids (item ∷ items) = item.id ∷ ids items

abbrev pub AllValid : ExternalAgentHubStore → Type 0
AllValid [] = Unit
AllValid (item ∷ items) = (validate item ≡ ok tt) × AllValid items

-- No id stands twice, and every definition passes the validation.
pub record IsHub (items : ExternalAgentHubStore) : Type 0 where
  pub distinct : IsUnique (ids items)
  pub valid : AllValid items

pub data Request : Type 0 where
  create_request : ExternalAgentDefinition → Request
  replace_request : String → ExternalAgentDefinition → Request
  remove_request : String → Request

unfoldable pub perform : Request → ExternalAgentHubStore → Result HubError ExternalAgentHubStore
perform (create_request d) = Service.create d
perform (replace_request agent_id d) = Service.replace agent_id d
perform (remove_request agent_id) = Service.remove agent_id

-- A request that raises leaves the store as it was.
abbrev pub settle :
    ExternalAgentHubStore → Result HubError ExternalAgentHubStore → ExternalAgentHubStore
settle items (ok new) = new
settle items (err _) = items

unfoldable pub serve : List Request → ExternalAgentHubStore → ExternalAgentHubStore
serve [] items = items
serve (r ∷ rs) items = serve rs (settle items (perform r items))

mem-others :
    (x id : String) (items : ExternalAgentHubStore)
    → mem x (ids (others id items)) ≡ (if id == x then false else mem x (ids items))
mem-others x id [] = ground arith
mem-others x id (item ∷ items) =
    ground (arith, mem-others x id items, eq_iff item.id id, eq_iff item.id x, eq_iff id x)

others-IsUnique :
    (id : String) (items : ExternalAgentHubStore)
    → IsUnique (ids items)
    → IsUnique (ids (others id items))
others-IsUnique id [] u = tt
others-IsUnique id (item ∷ items) u =
    ground (arith, others-IsUnique id items, mem-others item.id id items, eq_iff item.id id)

others-AllValid :
    (id : String) (items : ExternalAgentHubStore) → AllValid items → AllValid (others id items)
others-AllValid id [] v = tt
others-AllValid id (item ∷ items) (p, v) = kept (not (item.id == id)) (others-AllValid id items v)
  where
    kept :
        (t : Bool)
        → AllValid (others id items)
        → AllValid (if t then item ∷ others id items else others id items)
    kept true w = (p, w)
    kept false w = w

append-ids :
    (items : ExternalAgentHubStore) (d : ExternalAgentDefinition)
    → ids (items ++ d ∷ []) ≡ ids items ++ d.id ∷ []
append-ids [] d = refl
append-ids (item ∷ items) d = rw (append-ids items d)

append-AllValid :
    (items : ExternalAgentHubStore) (d : ExternalAgentDefinition)
    → AllValid items
    → validate d ≡ ok tt
    → AllValid (items ++ d ∷ [])
append-AllValid [] d v p = (p, tt)
append-AllValid (item ∷ items) d (q, v) p = (q, append-AllValid items d v p)

others-IsHub : (id : String) (items : ExternalAgentHubStore) → IsHub items → IsHub (others id items)
others-IsHub id items h = record {
  distinct = others-IsUnique id items h.distinct;
  valid = others-AllValid id items h.valid;
}

put-IsHub :
    (d : ExternalAgentDefinition) (items : ExternalAgentHubStore)
    → IsHub items
    → validate d ≡ ok tt
    → IsHub (put d items)
unfolding put
put-IsHub d items h p =
    let kept = others-IsHub d.id items h in
    record {
      distinct = subst IsUnique (sym (append-ids (others d.id items) d)) (
          append_one-IsUnique d.id (ids (others d.id items))
            (ground (arith, mem-others d.id d.id items, eq_iff d.id d.id)) kept.distinct);
      valid = append-AllValid (others d.id items) d kept.valid p;
    }

validated :
    (P : ExternalAgentHubStore → Type 0) (v : Result HubError (Unit {0}))
    (r : Result HubError ExternalAgentHubStore)
    → (v ≡ ok tt → Ensures P r)
    → Ensures P (v >> r)
validated P (ok _) r h = h refl
validated P (err _) r h = tt

create-IsHub :
    (d : ExternalAgentDefinition) (items : ExternalAgentHubStore)
    → IsHub items
    → Ensures IsHub (create d items)
unfolding create
create-IsHub d items h =
    validated IsHub (validate d) _
      λ p. Ensures-raise_if IsHub (is_some (get d.id items)) _ _ λ new. put-IsHub d items h p

replace-IsHub :
    (agent_id : String) (d : ExternalAgentDefinition) (items : ExternalAgentHubStore)
    → IsHub items
    → Ensures IsHub (replace agent_id d items)
unfolding replace
replace-IsHub agent_id d items h = Ensures-raise_if IsHub (not (agent_id == d.id)) _ _ λ same.
    Ensures-bind (λ _. Unit) IsHub (Service.get agent_id items) _
      (known (Service.get agent_id items))
      λ old u. validated IsHub (validate d) _ λ p. put-IsHub d items h p
  where
    known : (r : Result HubError ExternalAgentDefinition) → Ensures (λ _. Unit {0}) r
    known (ok d) = tt
    known (err _) = tt

remove-IsHub :
    (agent_id : String) (items : ExternalAgentHubStore)
    → IsHub items
    → Ensures IsHub (remove agent_id items)
unfolding remove Store.remove
remove-IsHub agent_id items h = either (leb (length items) (length (others agent_id items)))
  where
    either :
        (t : Bool)
        → Ensures IsHub
            (removed agent_id (if t then (items, false) else (others agent_id items, true)))
    either true = tt
    either false = others-IsHub agent_id items h

perform-IsHub :
    (r : Request) (items : ExternalAgentHubStore) → IsHub items → Ensures IsHub (perform r items)
unfolding perform
perform-IsHub (create_request d) = create-IsHub d
perform-IsHub (replace_request agent_id d) = replace-IsHub agent_id d
perform-IsHub (remove_request agent_id) = remove-IsHub agent_id

settle-IsHub :
    (items : ExternalAgentHubStore) (r : Result HubError ExternalAgentHubStore)
    → IsHub items
    → Ensures IsHub r
    → IsHub (settle items r)
settle-IsHub items (ok new) h e = e
settle-IsHub items (err _) h e = h

-- Whatever requests are served by the hub, refused ones included, no id stands twice in its
-- store and every definition in it passes the validation, if both held before.
pub serve-IsHub :
    (rs : List Request) (items : ExternalAgentHubStore) → IsHub items → IsHub (serve rs items)
unfolding serve
serve-IsHub [] items h = h
serve-IsHub (r ∷ rs) items h =
    serve-IsHub rs (settle items (perform r items))
      (settle-IsHub items (perform r items) h (perform-IsHub r items h))
