-- ===== src/Plugins/Discovery.antt =====
-- manager.py: the discovery of packages. The packages of all roots are given in the order in which
-- they are visited, each with what reading its manifest gave. The error texts are left out.
use angelus.Prelude.{
  ℕ, Bool, Option, none, some, List, [], ◌∷◌, ◌++◌, String, if◌then◌else◌, mem, ok, err, ◌>>=◌,
}
use angelus.Settings.Json.{Json}
use angelus.Plugins.Types.{manifest_error, type_error, unicode_error, Decoded, PluginManifest}
use angelus.Plugins.Values.{mapping_of}
use angelus.Plugins.Manifest.{decode_manifest}

-- An `OSError` or a `JSONDecodeError`, a file that is not UTF-8, or a document.
pub data Reading : Type 0 where
  unreadable not_utf8 : Reading
  parsed : Json → Reading

pub record Package : Type 0 where
  pub package_path : String
  pub reading : Reading

pub record DiscoveredPlugin : Type 0 where
  pub manifest : Option PluginManifest
  pub package_path : String

abbrev pub invalid : String → DiscoveredPlugin
invalid path = record { manifest = none; package_path = path }

abbrev pub found_as : PluginManifest → String → DiscoveredPlugin
found_as m path = record { manifest = some m; package_path = path }

module _ (is_digit : ℕ → Bool) (greater : Json → Json → Bool) where
  unfoldable pub load_manifest : Reading → Decoded PluginManifest
  unfolding mapping_of
  load_manifest unreadable = err manifest_error
  load_manifest not_utf8 = err unicode_error
  load_manifest (parsed j) = mapping_of j >>= λ raw. decode_manifest is_digit greater raw

  -- What one package adds; `more` is the rest of the loop. Only a `ManifestError` is caught.
  unfoldable pub after_load :
      List String
      → List DiscoveredPlugin
      → String
      → Decoded PluginManifest
      → (List String → List DiscoveredPlugin → Decoded (List DiscoveredPlugin))
      → Decoded (List DiscoveredPlugin)
  after_load names found path (ok m) more =
      if mem m.name names
      then more names (found ++ invalid path ∷ [])
      else more (names ++ m.name ∷ []) (found ++ found_as m path ∷ [])
  after_load names found path (err manifest_error) more = more names (found ++ invalid path ∷ [])
  after_load names found path (err type_error) more = err type_error
  after_load names found path (err unicode_error) more = err unicode_error

  unfoldable pub rescan_from :
      List String → List DiscoveredPlugin → List Package → Decoded (List DiscoveredPlugin)
  unfolding after_load
  rescan_from names found [] = ok found
  rescan_from names found (p ∷ packages) =
      after_load names found p.package_path (load_manifest p.reading)
        (λ n f. rescan_from n f packages)

  unfoldable pub rescan : List Package → Decoded (List DiscoveredPlugin)
  rescan packages = rescan_from [] [] packages
