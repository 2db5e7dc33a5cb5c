-- ===== src/Plugins/Rescans.antt =====
-- What a rescan finds, and what keeps it from finding anything.
use mathlib.Core.List.{append_assoc, append-nil}
use angelus.Prelude.{
  ℕ, ◌≡◌, refl, ap, sym, subst, ◌∙◌, Bool, Option, none, some, List, [], ◌∷◌, ◌++◌, String, mem, ok,
  err, IsUnique, append_one-IsUnique, Bool-cases, ◌⊎◌, inl, inr, Ensures, Ensures-ok,
}
use angelus.Settings.Json.{Json}
use angelus.Plugins.Types.{
  PluginError, manifest_error, type_error, unicode_error, Decoded, PluginManifest,
}
use angelus.Plugins.Discovery.{
  Package, DiscoveredPlugin, invalid, found_as, load_manifest, after_load, rescan_from, rescan,
}

-- The names of the manifests among what was found.
abbrev pub named : Option PluginManifest → List String → List String
named none rest = rest
named (some m) rest = m.name ∷ rest

abbrev pub names_of : List DiscoveredPlugin → List String
names_of [] = []
names_of (d ∷ found) = named d.manifest (names_of found)

abbrev pub paths_of : List DiscoveredPlugin → List String
paths_of [] = []
paths_of (d ∷ found) = d.package_path ∷ paths_of found

abbrev pub package_paths : List Package → List String
package_paths [] = []
package_paths (p ∷ packages) = p.package_path ∷ package_paths packages

names_of-invalid :
    (found : List DiscoveredPlugin) (path : String)
    → names_of (found ++ invalid path ∷ []) ≡ names_of found
names_of-invalid [] path = refl
names_of-invalid (d ∷ found) path = ap (named d.manifest) (names_of-invalid found path)

named-append :
    (o : Option PluginManifest) (xs ys : List String) → named o (xs ++ ys) ≡ named o xs ++ ys
named-append none xs ys = refl
named-append (some m) xs ys = refl

names_of-found_as :
    (found : List DiscoveredPlugin) (m : PluginManifest) (path : String)
    → names_of (found ++ found_as m path ∷ []) ≡ names_of found ++ m.name ∷ []
names_of-found_as [] m path = refl
names_of-found_as (d ∷ found) m path =
    ap (named d.manifest) (names_of-found_as found m path)
    ∙ named-append d.manifest (names_of found) (m.name ∷ [])

paths_of-append :
    (found : List DiscoveredPlugin) (d : DiscoveredPlugin)
    → paths_of (found ++ d ∷ []) ≡ paths_of found ++ d.package_path ∷ []
paths_of-append [] d = refl
paths_of-append (e ∷ found) d = ap (λ t. e.package_path ∷ t) (paths_of-append found d)

-- The result names every package that was visited, in order, and no manifest name twice.
abbrev Finds : List String → List DiscoveredPlugin → Type 0
Finds paths result = IsUnique (names_of result) × (paths_of result ≡ paths)

next_path :
    (found : List DiscoveredPlugin) (d : DiscoveredPlugin) (rest : List String)
    → paths_of (found ++ d ∷ []) ++ rest ≡ paths_of found ++ d.package_path ∷ rest
next_path found d rest =
    ap (λ t. t ++ rest) (paths_of-append found d)
    ∙ append_assoc (paths_of found) (d.package_path ∷ []) rest

-- A package whose manifest is refused is found with no manifest.
skip-Finds :
    (found : List DiscoveredPlugin) (path : String) (rest : List String)
    (more : List String → List DiscoveredPlugin → Decoded (List DiscoveredPlugin))
    → IsUnique (names_of found)
    → ((f : List DiscoveredPlugin)
        → IsUnique (names_of f)
        → Ensures (Finds (paths_of f ++ rest)) (more (names_of f) f))
    → Ensures
        (Finds (paths_of found ++ path ∷ rest))
        (more (names_of found) (found ++ invalid path ∷ []))
skip-Finds found path rest more u ih =
    let f : List DiscoveredPlugin = found ++ invalid path ∷ [] in
    let e : names_of f ≡ names_of found = names_of-invalid found path in
    subst (λ ns. Ensures (Finds (paths_of found ++ path ∷ rest)) (more ns f)) e
      (subst (λ ps. Ensures (Finds ps) (more (names_of f) f)) (next_path found (invalid path) rest)
        (ih f (subst IsUnique (sym e) u)))

module _ (is_digit : ℕ → Bool) (greater : Json → Json → Bool) where
  after_load-Finds :
      (found : List DiscoveredPlugin) (path : String) (rest : List String)
      (r : Decoded PluginManifest)
      (more : List String → List DiscoveredPlugin → Decoded (List DiscoveredPlugin))
      → IsUnique (names_of found)
      → ((f : List DiscoveredPlugin)
          → IsUnique (names_of f)
          → Ensures (Finds (paths_of f ++ rest)) (more (names_of f) f))
      → Ensures
          (Finds (paths_of found ++ path ∷ rest))
          (after_load is_digit greater (names_of found) found path r more)
  unfolding after_load
  after_load-Finds found path rest (err manifest_error) more u ih =
      skip-Finds found path rest more u ih
  after_load-Finds found path rest (err type_error) more u ih = tt
  after_load-Finds found path rest (err unicode_error) more u ih = tt
  after_load-Finds found path rest (ok m) more u ih =
      elim (Bool-cases (mem m.name (names_of found))) [
        | inl p ↦ rw p (skip-Finds found path rest more u ih)
        | inr p ↦
            let f : List DiscoveredPlugin = found ++ found_as m path ∷ [] in
            let e : names_of f ≡ names_of found ++ m.name ∷ [] = names_of-found_as found m path in
            let v : IsUnique (names_of f) =
              subst IsUnique (sym e) (append_one-IsUnique m.name (names_of found) p u) in
            rw p (
              subst (λ ns. Ensures (Finds (paths_of found ++ path ∷ rest)) (more ns f)) e
                (subst (λ ps. Ensures (Finds ps) (more (names_of f) f))
                  (next_path found (found_as m path) rest) (ih f v)))
      ]

  rescan_from-Finds :
      (packages : List Package) (found : List DiscoveredPlugin)
      → IsUnique (names_of found)
      → Ensures
          (Finds (paths_of found ++ package_paths packages))
          (rescan_from is_digit greater (names_of found) found packages)
  unfolding rescan_from
  rescan_from-Finds [] found u = (u, sym (append-nil (paths_of found)))
  rescan_from-Finds (p ∷ packages) found u =
      after_load-Finds found p.package_path (package_paths packages)
        (load_manifest is_digit greater p.reading)
        (λ n f. rescan_from is_digit greater n f packages) u (λ f v. rescan_from-Finds packages f v)

  -- A rescan that returns lists every package once, in the order of the visit, and no two of
  -- the manifests that it lists have the same name.
  pub rescan-finds :
      (packages : List Package) (result : List DiscoveredPlugin)
      → rescan is_digit greater packages ≡ ok result
      → IsUnique (names_of result) × (paths_of result ≡ package_paths packages)
  unfolding rescan
  rescan-finds packages result e =
      Ensures-ok (Finds (package_paths packages)) (rescan_from is_digit greater [] [] packages)
        (rescan_from-Finds packages [] tt) e

  -- The exceptions that the loop does not catch.
  abbrev Escapes : Decoded PluginManifest → Type 0
  Escapes (ok _) = ⊥
  Escapes (err manifest_error) = ⊥
  Escapes (err type_error) = Unit
  Escapes (err unicode_error) = Unit

  abbrev pub Breaks : List Package → Type 0
  Breaks [] = ⊥
  Breaks (p ∷ packages) = Escapes (load_manifest is_digit greater p.reading) ⊎ Breaks packages

  escape_raises :
      (names : List String) (found : List DiscoveredPlugin) (path : String)
      (r : Decoded PluginManifest)
      (more : List String → List DiscoveredPlugin → Decoded (List DiscoveredPlugin))
      → Escapes r
      → (e : PluginError) × (after_load is_digit greater names found path r more ≡ err e)
  unfolding after_load
  escape_raises names found path (ok m) more h = absurd h
  escape_raises names found path (err manifest_error) more h = absurd h
  escape_raises names found path (err type_error) more h = (type_error, refl)
  escape_raises names found path (err unicode_error) more h = (unicode_error, refl)

  later_raises :
      (names : List String) (found : List DiscoveredPlugin) (path : String)
      (r : Decoded PluginManifest)
      (more : List String → List DiscoveredPlugin → Decoded (List DiscoveredPlugin))
      → ((n : List String) (f : List DiscoveredPlugin) → (e : PluginError) × (more n f ≡ err e))
      → (e : PluginError) × (after_load is_digit greater names found path r more ≡ err e)
  unfolding after_load
  later_raises names found path (ok m) more ih = elim (Bool-cases (mem m.name names)) [
    | inl p ↦ rw p (ih names (found ++ invalid path ∷ []))
    | inr p ↦ rw p (ih (names ++ m.name ∷ []) (found ++ found_as m path ∷ []))
  ]
  later_raises names found path (err manifest_error) more ih = ih names (found ++ invalid path ∷ [])
  later_raises names found path (err type_error) more ih = (type_error, refl)
  later_raises names found path (err unicode_error) more ih = (unicode_error, refl)

  rescan_from-raises :
      (packages : List Package) (names : List String) (found : List DiscoveredPlugin)
      → Breaks packages
      → (e : PluginError) × (rescan_from is_digit greater names found packages ≡ err e)
  unfolding rescan_from
  rescan_from-raises [] names found b = absurd b
  rescan_from-raises (p ∷ packages) names found (inl h) =
      escape_raises names found p.package_path (load_manifest is_digit greater p.reading)
        (λ n f. rescan_from is_digit greater n f packages) h
  rescan_from-raises (p ∷ packages) names found (inr b) =
      later_raises names found p.package_path (load_manifest is_digit greater p.reading)
        (λ n f. rescan_from is_digit greater n f packages)
        (λ n f. rescan_from-raises packages n f b)

  -- If the manifest of one package makes the decoder raise something else than a
  -- `ManifestError`, the rescan raises an error and finds no package at all, wherever the
  -- package stands and whatever the others are.
  pub rescan-raises :
      (packages : List Package)
      → Breaks packages
      → (e : PluginError) × (rescan is_digit greater packages ≡ err e)
  unfolding rescan
  rescan-raises packages b = rescan_from-raises packages [] [] b
