-- ===== src/Hub/Finite.antt =====
-- The store of definitions, read as a map from ids (store.py).
use angelus.Prelude.{
  ◌≡◌, refl, not, none, some, [], ◌∷◌, ◌++◌, String, ◌==◌, eq_iff, arith, is_some, or_else,
  if◌then◌else◌, leb, length, length-keep,
}
use angelus.Hub.Types.{ExternalAgentDefinition}
use angelus.Hub.Store.{ExternalAgentHubStore, get, others, put, remove}

get-others :
    (x id : String) (items : ExternalAgentHubStore)
    → get x (others id items) ≡ (if id == x then none else get x items)
unfolding get
get-others x id [] = ground arith
get-others x id (item ∷ items) =
    ground (arith, get-others x id items, eq_iff item.id id, eq_iff item.id x, eq_iff id x)

get-append :
    (x : String) (items : ExternalAgentHubStore) (d : ExternalAgentDefinition)
    → get x (items ++ d ∷ []) ≡ or_else (get x items) (if d.id == x then some d else none)
unfolding get
get-append x [] d = refl
get-append x (item ∷ items) d = ground (arith, get-append x items d)

length-others :
    (id : String) (items : ExternalAgentHubStore)
    → leb (length items) (length (others id items)) ≡ not (is_some (get id items))
unfolding get
length-others id [] = refl
length-others id (item ∷ items) =
    ground (arith, length-others id items, length-keep (λ i. not (i.id == id)) items)

get-put :
    (x : String) (d : ExternalAgentDefinition) (items : ExternalAgentHubStore)
    → get x (put d items) ≡ (if d.id == x then some d else get x items)
unfolding put
get-put x d items = ground (arith, get-append x (others d.id items) d, get-others x d.id items)

get-remove :
    (x id : String) (items : ExternalAgentHubStore)
    → get x (remove id items).0 ≡ (if id == x then none else get x items)
unfolding remove
get-remove x id items = ground (arith, get-others x id items, length-others id items, eq_iff id x)

-- `put` and `remove` of the hub's store are the update and the removal of a finite map from ids
-- to definitions, as `get` reads it, and `remove` says whether the id was there.
pub store_lem :
    (x id : String) (d : ExternalAgentDefinition) (items : ExternalAgentHubStore)
    → (get x (put d items) ≡ (if d.id == x then some d else get x items))
      × (get x (remove id items).0 ≡ (if id == x then none else get x items))
      × ((remove id items).1 ≡ is_some (get id items))
unfolding remove
store_lem x id d items =
    (get-put x d items, get-remove x id items, ground (arith, length-others id items))
