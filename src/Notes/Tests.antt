-- ===== src/Notes/Tests.antt =====
-- A small store of notes, and the theorems applied to it.
use angelus.Prelude.{
  ℕ, ◌+◌, ◌≤◌, ◌≡◌, refl, max, true, false, none, some, List, [], ◌∷◌, String, ◌==◌, all, length,
  ok, err,
}
use angelus.Notes.Texts.{
  Text, revision_conflict, validate_text, strip, left_strip, tags_of, distinct_tags, valid_id,
}
use angelus.Notes.Store.{
  Scope, Status, Row, Note, NoteStore, Changes, rows_of, with_rows, select, update_rows, changed,
  status_of, update, read, list, search,
}
use angelus.Notes.Updates.{update_lem, update-stale}
use angelus.Notes.Listing.{GivesRows, note_active, search-active}

abbrev first_id : String
first_id = "00112233445566778899aabbccddeeff"

abbrev row_at : Text → Status → ℕ → ℕ → Row
row_at title status updated revision = record {
  note_id = first_id;
  title = title;
  content = 120 ∷ [];
  tags = [];
  status = status;
  created_at = 1;
  updated_at = updated;
  revision = revision;
}

abbrev store : NoteStore
store = record { session_db = row_at (65 ∷ []) Status.active 1 4 ∷ []; project_db = none }

abbrev rename : Changes
rename = record {
  title = some (32 ∷ 66 ∷ []);
  content = none;
  tags = none;
  status = none;
  revision = some 4;
}

abbrev renamed : NoteStore
renamed = record { session_db = row_at (66 ∷ []) Status.active 9 5 ∷ []; project_db = none }

abbrev renamed_note : Note
renamed_note = record { scope = Scope.session; row = row_at (66 ∷ []) Status.active 9 5 }

renaming : update Scope.session first_id rename 9 store ≡ ok (renamed, renamed_note)
unfolding update rows_of with_rows select update_rows changed validate_text strip left_strip tags_of
    distinct_tags status_of valid_id
renaming = refl

update_lem_example :
    (old : Note) × (read Scope.session first_id store ≡ ok old)
    × (read Scope.session first_id renamed ≡ ok renamed_note)
    × (renamed_note.row.revision ≡ old.row.revision + 1)
    × (renamed_note.row.created_at ≡ old.row.created_at)
    × ((j : String)
        → (first_id == j) ≡ false
        → read Scope.session j renamed ≡ read Scope.session j store)
update_lem_example = update_lem Scope.session first_id rename 9 store renamed renamed_note renaming

update-stale_example : update Scope.session first_id rename 12 renamed ≡ err revision_conflict
update-stale_example =
    update-stale Scope.session first_id rename rename 9 12 4 store renamed renamed_note renaming
      refl refl

abbrev as_given : List Row → List Row
as_given rows = rows

as_given-GivesRows : GivesRows as_given
as_given-GivesRows p rows h = h

found_one :
    search as_given (λ t. t) Scope.session (120 ∷ []) 5 store
    ≡ ok (record { scope = Scope.session; row = row_at (65 ∷ []) Status.active 1 4 } ∷ [])
unfolding search list rows_of validate_text strip left_strip
found_one = refl

search-active_example :
    (all note_active
        (record { scope = Scope.session; row = row_at (65 ∷ []) Status.active 1 4 } ∷ [])
      ≡ true)
    × (length {A = Note}
          (record { scope = Scope.session; row = row_at (65 ∷ []) Status.active 1 4 } ∷ [])
        ≤ 100)
    × (length {A = Note}
          (record { scope = Scope.session; row = row_at (65 ∷ []) Status.active 1 4 } ∷ [])
        ≤ max 1 5)
search-active_example =
    search-active as_given (λ t. t) as_given-GivesRows Scope.session (120 ∷ []) 5 store
      (record { scope = Scope.session; row = row_at (65 ∷ []) Status.active 1 4 } ∷ []) found_one
