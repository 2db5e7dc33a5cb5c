-- ===== src/Notes/Store.antt =====
-- store.py: the operations on the two databases of notes. A transaction is one step, since a writer
-- holds the lock of its database from its first read to its commit; an error leaves the database as
-- it was. Ids and times are arguments. `newest_first` is SQLite's `ORDER BY updated_at DESC`, which
-- leaves the order of equal times open, and `casefold` is Python's.
use angelus.Prelude.{
  ℕ, ◌+◌, min, max, Bool, true, false, not, ◌&&◌, ◌||◌, Option, none, some, List, [], ◌∷◌, ◌++◌,
  String, ◌==◌, is_empty, if◌then◌else◌, leb, take, keep, get_or, Result, ok, err, ◌>>=◌, ◌>>◌,
  raise_if, is_some,
}
use angelus.Notes.Texts.{
  Text, NoteError, bad_scope, bad_id, not_found, revision_conflict, bad_status, duplicate_id,
  validate_text, Tags, listed, tags_of, valid_id,
}

pub data Status : Type 0 where
  active archived deleted : Status

pub data Scope : Type 0 where
  session project other : Scope

-- A row of the table; a note is a row with the scope that it was asked for in.
pub record Row : Type 0 where
  pub note_id : String
  pub title : Text
  pub content : Text
  pub tags : List Text
  pub status : Status
  pub created_at : ℕ
  pub updated_at : ℕ
  pub revision : ℕ

pub record Note : Type 0 where
  pub scope : Scope
  pub row : Row

pub record NoteStore : Type 0 where
  pub session_db : List Row
  pub project_db : Option (List Row)

abbrev pub or_bad_scope : Option (List Row) → Result NoteError (List Row)
or_bad_scope none = err bad_scope
or_bad_scope (some rows) = ok rows

-- `_path`
unfoldable pub rows_of : Scope → NoteStore → Result NoteError (List Row)
rows_of Scope.session s = ok s.session_db
rows_of Scope.project s = or_bad_scope s.project_db
rows_of Scope.other s = err bad_scope

-- The store with the rows of one database replaced.
unfoldable pub with_rows : Scope → List Row → NoteStore → NoteStore
with_rows Scope.session rows s = record s { session_db = rows }
with_rows Scope.project rows s = record s { project_db = some rows }
with_rows Scope.other rows s = s

-- `_SELECT_NOTE_BY_ID`
unfoldable pub select : String → List Row → Option Row
select id [] = none
select id (row ∷ rows) = let rest = select id rows in if row.note_id == id then some row else rest

abbrev pub or_missing : Option Row → Result NoteError Row
or_missing none = err not_found
or_missing (some row) = ok row

-- An id is new from `uuid4().hex`, which is valid, so that the read behind the insertion finds the
-- row.
unfoldable pub create :
    Scope → Text → Text → Tags → String → ℕ → NoteStore → Result NoteError (NoteStore × Note)
create scope title content tags id now s = do
  title_text ← validate_text title
  content_text ← validate_text content
  tag_values ← tags_of tags
  rows ← rows_of scope s
  raise_if (is_some (select id rows)) duplicate_id
  let row : Row = record {
    note_id = id;
    title = title_text;
    content = content_text;
    tags = tag_values;
    status = active;
    created_at = now;
    updated_at = now;
    revision = 1;
  }
  ok (with_rows scope (rows ++ row ∷ []) s, record { scope = scope; row = row })

unfoldable pub read : Scope → String → NoteStore → Result NoteError Note
read scope id s = do
  raise_if (not (valid_id id)) bad_id
  rows ← rows_of scope s
  row ← or_missing (select id rows)
  ok (record { scope = scope; row = row })

-- The arguments of `update`, each of which may be left out.
pub record Changes : Type 0 where
  pub title : Option Text
  pub content : Option Text
  pub tags : Option Tags
  pub status : Option String
  pub revision : Option ℕ

abbrev pub conflicts : Option ℕ → ℕ → Bool
conflicts none current = false
conflicts (some expected) current = not (leb expected current && leb current expected)

unfoldable pub status_named : String → Result NoteError Status
status_named t =
    if t == "active"
    then ok active
    else if t == "archived"
    then ok archived
    else if t == "deleted"
    then ok deleted
    else err bad_status

-- `status or current.status`
unfoldable pub status_of : Option String → Status → Result NoteError Status
unfolding status_named
status_of none current = ok current
status_of (some t) current = if is_empty t then ok current else status_named t

-- `_UPDATE_NOTE`
unfoldable pub update_rows : String → Row → List Row → List Row
update_rows id new [] = []
update_rows id new (row ∷ rows) =
    let rest = update_rows id new rows in if row.note_id == id then new ∷ rest else row ∷ rest

-- The row that an update leaves.
unfoldable pub changed : Changes → ℕ → Row → Result NoteError Row
changed ch now current = do
  raise_if (conflicts ch.revision current.revision) revision_conflict
  title ← validate_text (get_or current.title ch.title)
  content ← validate_text (get_or current.content ch.content)
  tags ← tags_of (get_or (listed current.tags) ch.tags)
  status ← status_of ch.status current.status
  ok (record {
    note_id = current.note_id;
    title = title;
    content = content;
    tags = tags;
    status = status;
    created_at = current.created_at;
    updated_at = now;
    revision = current.revision + 1;
  })

unfoldable pub update :
    Scope → String → Changes → ℕ → NoteStore → Result NoteError (NoteStore × Note)
update scope id ch now s = do
  raise_if (not (valid_id id)) bad_id
  rows ← rows_of scope s
  current ← or_missing (select id rows)
  new ← changed ch now current
  updated ← or_missing (select id (update_rows id new rows))
  ok (with_rows scope (update_rows id new rows) s, record { scope = scope; row = updated })

unfoldable pub delete :
    Scope → String → Option ℕ → ℕ → NoteStore → Result NoteError (NoteStore × Note)
unfolding update
delete scope id revision now s =
    update scope id
      (record {
        title = none;
        content = none;
        tags = none;
        status = some "deleted";
        revision = revision;
      })
      now s

abbrev pub is_active : Status → Bool
is_active active = true
is_active archived = false
is_active deleted = false

abbrev pub as_notes : Scope → List Row → List Note
as_notes scope [] = []
as_notes scope (row ∷ rows) = record { scope = scope; row = row } ∷ as_notes scope rows

abbrev pub prefix_of : Text → Text → Bool
prefix_of [] ys = true
prefix_of (x ∷ xs) [] = false
prefix_of (x ∷ xs) (y ∷ ys) = leb x y && leb y x && prefix_of xs ys

-- `needle in text`
abbrev pub found_in : Text → Text → Bool
found_in needle [] = prefix_of needle []
found_in needle (c ∷ cs) = prefix_of needle (c ∷ cs) || found_in needle cs

-- `' '.join(tags)`
abbrev pub spaced : List Text → Text
spaced [] = []
spaced (t ∷ []) = t
spaced (t ∷ (u ∷ ts)) = t ++ b' ' ∷ spaced (u ∷ ts)

module _ (newest_first : List Row → List Row) where
  unfoldable pub list : Scope → Bool → ℕ → NoteStore → Result NoteError (List Note)
  list scope include_inactive limit s = do
    rows ← rows_of scope s
    let shown = if include_inactive then rows else keep (λ r. is_active r.status) rows
    ok (as_notes scope (take (max 1 (min limit 500)) (newest_first shown)))

  unfoldable pub search :
      (Text → Text) → Scope → Text → ℕ → NoteStore → Result NoteError (List Note)
  unfolding list
  search casefold scope query limit s = do
    needle ← validate_text query
    notes ← list scope false 500 s
    ok (
        take (max 1 (min limit 100)) (
          keep
            (λ note.
              found_in (casefold needle)
                (casefold (note.row.title ++ 10 ∷ (note.row.content ++ 10 ∷ spaced note.row.tags))))
            notes))
