-- ===== src/Notes/Texts.antt =====
-- store.py: the checks of titles, contents, tags and ids. A text is the list of its code points.
use angelus.Prelude.{
  ℕ, Bool, true, false, ◌&&◌, ◌||◌, List, [], ◌∷◌, ◌++◌, String, if◌then◌else◌, ltb, leb, length,
  any, all, codes, is_space, Result, ok, ◌>>◌, raise_if,
}
use mathlib.Core.List.{reverse}

abbrev pub Text : Type 0
Text = List ℕ

-- `NoteError`, with the check that raised it, and the error of SQLite on a second row of one id.
pub data NoteError : Type 0 where
  bad_scope empty_text long_text bad_tags bad_id not_found revision_conflict : NoteError
  bad_status duplicate_id : NoteError

unfoldable pub left_strip : Text → Text
left_strip [] = []
left_strip (c ∷ cs) = let rest = left_strip cs in if is_space c then rest else c ∷ cs

unfoldable pub strip : Text → Text
strip t = reverse (left_strip (reverse (left_strip t)))

abbrev pub is_nothing : Text → Bool
is_nothing [] = true
is_nothing (_ ∷ _) = false

-- `_validate_text`, of a value that is a text.
unfoldable pub validate_text : Text → Result NoteError Text
validate_text value = do
  raise_if (is_nothing (strip value)) empty_text
  raise_if (ltb 100000 (length (strip value))) long_text
  ok (strip value)

abbrev pub same_text : Text → Text → Bool
same_text [] [] = true
same_text [] (_ ∷ _) = false
same_text (_ ∷ _) [] = false
same_text (a ∷ as') (b ∷ bs) = leb a b && leb b a && same_text as' bs

abbrev pub has : Text → List Text → Bool
has x xs = any (same_text x) xs

-- `dict.fromkeys(str(item).strip() for item in values if str(item).strip())`
unfoldable pub distinct_tags : List Text → List Text → List Text
distinct_tags seen [] = seen
distinct_tags seen (item ∷ items) =
    distinct_tags
      (if is_nothing (strip item) || has (strip item) seen then seen else seen ++ strip item ∷ [])
      items

-- The tags as a list, or as a text with commas.
pub data Tags : Type 0 where
  listed : List Text → Tags
  joined : Text → Tags

abbrev pub push_code : ℕ → List Text → List Text
push_code c [] = (c ∷ []) ∷ []
push_code c (part ∷ parts) = (c ∷ part) ∷ parts

unfoldable pub split_commas : Text → List Text
split_commas [] = [] ∷ []
split_commas (c ∷ cs) =
    let parts = split_commas cs in
    if leb b',' c && leb c b',' then [] ∷ parts else push_code c parts

abbrev pub tag_items : Tags → List Text
tag_items (listed items) = items
tag_items (joined t) = split_commas t

-- `_tags`
unfoldable pub tags_of : Tags → Result NoteError (List Text)
unfolding distinct_tags
tags_of tags = do
  let result = distinct_tags [] (tag_items tags)
  raise_if (ltb 32 (length result) || any (λ item. ltb 64 (length item)) result) bad_tags
  ok result

abbrev is_hex : ℕ → Bool
is_hex c = leb b'0' c && leb c b'9' || leb b'a' c && leb c b'f'

-- `re.fullmatch(r"[0-9a-f]{32}", note_id)`
unfoldable pub valid_id : String → Bool
valid_id id = leb 32 (length (codes id)) && leb (length (codes id)) 32 && all is_hex (codes id)
