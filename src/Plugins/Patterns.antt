-- ===== src/Plugins/Patterns.antt =====
-- manifest.py: the patterns of names, keys, assets and versions, and the checks of single values.
use angelus.Prelude.{
  ℕ, Bool, true, false, ◌&&◌, ◌||◌, List, [], ◌∷◌, String, if◌then◌else◌, leb, length, all, any,
  codes, map,
}

abbrev is_char : ℕ → ℕ → Bool
is_char a c = leb a c && leb c a

abbrev is_lower : ℕ → Bool
is_lower c = leb b'a' c && leb c b'z'

abbrev is_upper : ℕ → Bool
is_upper c = leb b'A' c && leb c b'Z'

abbrev is_ascii_digit : ℕ → Bool
is_ascii_digit c = leb b'0' c && leb c b'9'

abbrev is_key_char : ℕ → Bool
is_key_char c = is_lower c || is_ascii_digit c || is_char b'_' c || is_char b'-' c

abbrev key_shaped : ℕ → ℕ → List ℕ → Bool
key_shaped least most [] = false
key_shaped least most (c ∷ cs) =
    is_lower c && leb least (length cs) && leb (length cs) most && all is_key_char cs

-- `_NAME.fullmatch`
unfoldable pub valid_name : String → Bool
valid_name s = key_shaped 1 63 (codes s)

-- `_SETTING.fullmatch`
unfoldable pub valid_key : String → Bool
valid_key s = key_shaped 0 119 (codes s)

abbrev is_asset_char : ℕ → Bool
is_asset_char c =
    is_lower c
    || is_upper c
    || is_ascii_digit c
    || is_char b'.' c
    || is_char b'_' c
    || is_char b'/' c
    || is_char b'-' c

abbrev asset_shaped : List ℕ → Bool
asset_shaped [] = false
asset_shaped (c ∷ cs) =
    (is_lower c || is_upper c || is_ascii_digit c) && leb (length cs) 255 && all is_asset_char cs

abbrev push_code : ℕ → List (List ℕ) → List (List ℕ)
push_code c [] = (c ∷ []) ∷ []
push_code c (part ∷ parts) = (c ∷ part) ∷ parts

-- `s.split(sep)`, which is also how a path falls into its parts.
unfoldable pub split_at : ℕ → List ℕ → List (List ℕ)
split_at sep [] = [] ∷ []
split_at sep (c ∷ cs) =
    let parts = split_at sep cs in if is_char sep c then [] ∷ parts else push_code c parts

abbrev is_parent : List ℕ → Bool
is_parent (a ∷ (b ∷ [])) = is_char b'.' a && is_char b'.' b
is_parent (a ∷ (b ∷ (c ∷ cs))) = false
is_parent (a ∷ []) = false
is_parent [] = false

-- `".." in Path(item).parts`
unfoldable pub climbs : String → Bool
unfolding split_at
climbs s = any is_parent (split_at b'/' (codes s))

-- `_ASSET.fullmatch`, after which no asset begins with a slash.
unfoldable pub valid_asset : String → Bool
valid_asset s = asset_shaped (codes s)

abbrev prefix_of : List ℕ → List ℕ → Bool
prefix_of [] ys = true
prefix_of (x ∷ xs) [] = false
prefix_of (x ∷ xs) (y ∷ ys) = is_char x y && prefix_of xs ys

-- `token in s`
abbrev occurs : List ℕ → List ℕ → Bool
occurs xs [] = prefix_of xs []
occurs xs (y ∷ ys) = prefix_of xs (y ∷ ys) || occurs xs ys

abbrev ends_with : List ℕ → List ℕ → Bool
ends_with xs [] = leb (length xs) 0
ends_with xs (y ∷ ys) =
    leb (length xs) (length (y ∷ ys)) && leb (length (y ∷ ys)) (length xs) && prefix_of xs (y ∷ ys)
    || ends_with xs ys

-- `asset.endswith(".css")`
unfoldable pub is_css : String → Bool
is_css s = ends_with (codes ".css") (codes s)

abbrev underscored : ℕ → ℕ
underscored c = if is_char b'-' c then b'_' else c

-- `any(token in key.replace("-", "_").lower() for token in _SENSITIVE)`; a key that fits its pattern
-- is in lower case.
unfoldable pub credential_shaped : String → Bool
credential_shaped key =
    any (λ token. occurs (codes token) (map underscored (codes key)))
      ("api_key" ∷ "apikey" ∷ "token" ∷ "password" ∷ "secret" ∷ "credential" ∷ [])

abbrev all_digits : (ℕ → Bool) → List ℕ → Bool
all_digits is_digit [] = false
all_digits is_digit (c ∷ cs) = all is_digit (c ∷ cs)

abbrev three_numbers : (ℕ → Bool) → List (List ℕ) → Bool
three_numbers is_digit (a ∷ (b ∷ (c ∷ []))) =
    all_digits is_digit a && all_digits is_digit b && all_digits is_digit c
three_numbers is_digit (a ∷ (b ∷ (c ∷ (d ∷ ds)))) = false
three_numbers is_digit (a ∷ (b ∷ [])) = false
three_numbers is_digit (a ∷ []) = false
three_numbers is_digit [] = false

-- `_VERSION.fullmatch`; `is_digit` is what `\d` matches.
unfoldable pub valid_version : (ℕ → Bool) → String → Bool
unfolding split_at
valid_version is_digit s = three_numbers is_digit (split_at b'.' (codes s))

abbrev is_word_start : ℕ → Bool
is_word_start c = is_lower c || is_upper c || is_char b'_' c

abbrev module_shaped : List ℕ → Bool
module_shaped [] = false
module_shaped (c ∷ cs) = is_word_start c && all (λ d. is_word_start d || is_ascii_digit d) cs

-- `re.fullmatch(r"[A-Za-z_][A-Za-z0-9_]*", entry)`
unfoldable pub valid_entry : String → Bool
valid_entry s = module_shaped (codes s)
