-- ===== src/Notes/Rows.antt =====
-- The rows of a database under an update, and a store under the replacement of its rows.
use angelus.Prelude.{
  ◌≡◌, refl, Bool, true, false, Option, none, some, List, [], ◌∷◌, String, ◌==◌, if◌then◌else◌,
  eq_iff, arith, ok,
}
use angelus.Notes.Store.{Scope, Row, NoteStore, rows_of, with_rows, select, update_rows}

pub rows_of-with_rows :
    (scope : Scope) (rows : List Row) (s : NoteStore) {old : List Row}
    → rows_of scope s ≡ ok old
    → rows_of scope (with_rows scope rows s) ≡ ok rows
unfolding rows_of with_rows
rows_of-with_rows Scope.session rows s e = refl
rows_of-with_rows Scope.project rows s e = refl
rows_of-with_rows Scope.other rows s e = cc

pub select-id :
    (id : String) (rows : List Row) (row : Row) → select id rows ≡ some row → row.note_id ≡ id
unfolding select
select-id id [] row e = cc
select-id id (r ∷ rows) row e = ground (arith, eq_iff r.note_id id, select-id id rows row)

abbrev pub is_there : Option Row → Bool
is_there none = false
is_there (some _) = true

-- The updated row is the one that its id selects, and every other id selects what it did.
pub select-update_rows :
    (id j : String) (new : Row) (rows : List Row)
    → new.note_id ≡ id
    → select j (update_rows id new rows)
      ≡ (if id == j then (if is_there (select id rows) then some new else none) else select j rows)
unfolding select update_rows
select-update_rows id j new [] e = ground arith
select-update_rows id j new (r ∷ rows) e = ground (
  arith,
  eq_iff r.note_id id,
  eq_iff r.note_id j,
  eq_iff id j,
  eq_iff new.note_id j,
  select-update_rows id j new rows e,
)
