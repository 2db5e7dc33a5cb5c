-- ===== src/Notes/Updates.antt =====
-- Updates of notes: what an accepted one does, and what the revision protects.
use angelus.Prelude.{
  ℕ, ◌+◌, ◌≡◌, refl, sym, ap, ◌∙◌, Bool, true, false, not, Option, none, some, List, String, ◌==◌,
  eq_refl, arith, Result, ok, err, raise_if, >>=-ok, get_or,
}
use angelus.Notes.Texts.{
  NoteError, bad_id, revision_conflict, validate_text, tags_of, listed, valid_id,
}
use angelus.Notes.Store.{
  Scope, Row, Note, NoteStore, Changes, rows_of, with_rows, select, or_missing, update_rows,
  changed, conflicts, status_of, update, read,
}
use angelus.Notes.Rows.{rows_of-with_rows, select-id, select-update_rows}

or_missing-ok : (o : Option Row) (row : Row) → or_missing o ≡ ok row → o ≡ some row
or_missing-ok none row h = cc
or_missing-ok (some r) row h = cc

raise_if-ok : (b : Bool) (e : NoteError) (u : Unit {0}) → raise_if b e ≡ ok u → b ≡ false
raise_if-ok true e u h = cc
raise_if-ok false e u h = refl

ok_pair :
    (s t : NoteStore) (m n : Note)
    → ◌≡◌ {A = Result NoteError (NoteStore × Note)} (ok (s, m)) (ok (t, n))
    → (s ≡ t) × (m ≡ n)
ok_pair s t m n h = (cc, cc)

some_row : (a b : Row) → some a ≡ some b → a ≡ b
some_row a b h = cc

-- What an accepted change keeps and what it moves.
changed-ok :
    (ch : Changes) (now : ℕ) (current new : Row)
    → changed ch now current ≡ ok new
    → (conflicts ch.revision current.revision ≡ false)
      × (new.note_id ≡ current.note_id)
      × (new.revision ≡ current.revision + 1)
      × (new.created_at ≡ current.created_at)
unfolding changed
changed-ok ch now current new h =
    let (u, a, h1) =
      >>=-ok (raise_if (conflicts ch.revision current.revision) revision_conflict) _ h in
    let (title, b, h2) = >>=-ok (validate_text (get_or current.title ch.title)) _ h1 in
    let (content, c, h3) = >>=-ok (validate_text (get_or current.content ch.content)) _ h2 in
    let (tags, d, h4) = >>=-ok (tags_of (get_or (listed current.tags) ch.tags)) _ h3 in
    let (status, e, h5) = >>=-ok (status_of ch.status current.status) _ h4 in
    (raise_if-ok (conflicts ch.revision current.revision) revision_conflict u a, cc, cc, cc)

-- The parts of an accepted update.
update-ok :
    (scope : Scope) (id : String) (ch : Changes) (now : ℕ) (s s' : NoteStore) (n : Note)
    → update scope id ch now s ≡ ok (s', n)
    → (rows : List Row) × (current : Row) × (new : Row) × (valid_id id ≡ true)
      × (rows_of scope s ≡ ok rows)
      × (select id rows ≡ some current)
      × (changed ch now current ≡ ok new)
      × (s' ≡ with_rows scope (update_rows id new rows) s)
      × (n ≡ record { scope = scope; row = new })
unfolding update
update-ok scope id ch now s s' n h =
    let (u, a, h1) = >>=-ok (raise_if (not (valid_id id)) bad_id) _ h in
    let (rows, b, h2) = >>=-ok (rows_of scope s) _ h1 in
    let (current, c, h3) = >>=-ok (or_missing (select id rows)) _ h2 in
    let (new, d, h4) = >>=-ok (changed ch now current) _ h3 in
    let (updated, e, h5) = >>=-ok (or_missing (select id (update_rows id new rows))) _ h4 in
    let sel : select id rows ≡ some current = or_missing-ok (select id rows) current c in
    let keeps = changed-ok ch now current new d in
    let own : new.note_id ≡ id = keeps.1 ∙ select-id id rows current sel in
    let there : select id (update_rows id new rows) ≡ some new =
      select-update_rows id id new rows own ∙ rw (eq_refl id, sel) refl in
    let same : some new ≡ some updated =
      sym there ∙ or_missing-ok (select id (update_rows id new rows)) updated e in
    let valid : not (valid_id id) ≡ false = raise_if-ok (not (valid_id id)) bad_id u a in
    let is_new : new ≡ updated = some_row new updated same in
    let ends =
      ok_pair (with_rows scope (update_rows id new rows) s) s'
        (record { scope = scope; row = updated }) n h5 in
    (
      rows,
      current,
      new,
      ground arith,
      b,
      sel,
      d,
      sym ends.0,
      sym ends.1 ∙ ap (λ r. record { scope = scope; row = r }) (sym is_new),
    )

-- An accepted update finds the note that a read finds before; a read behind it finds the note
-- that it returns, whose revision is one more and whose time of creation is the same; a read of
-- any other id in that scope gives what it gave before, an error included.
pub update_lem :
    (scope : Scope) (id : String) (ch : Changes) (now : ℕ) (s s' : NoteStore) (n : Note)
    → update scope id ch now s ≡ ok (s', n)
    → (old : Note) × (read scope id s ≡ ok old)
      × (read scope id s' ≡ ok n)
      × (n.row.revision ≡ old.row.revision + 1)
      × (n.row.created_at ≡ old.row.created_at)
      × ((j : String) → (id == j) ≡ false → read scope j s' ≡ read scope j s)
unfolding read
update_lem scope id ch now s s' n h =
    let (rows, current, new, valid, b, sel, d, es, en) = update-ok scope id ch now s s' n h in
    let (fresh, own, rev, made) = changed-ok ch now current new d in
    let own_id : new.note_id ≡ id = own ∙ select-id id rows current sel in
    let there : select id (update_rows id new rows) ≡ some new =
      select-update_rows id id new rows own_id ∙ rw (eq_refl id, sel) refl in
    let after : rows_of scope s' ≡ ok (update_rows id new rows) =
      ap (rows_of scope) es ∙ rows_of-with_rows scope (update_rows id new rows) s b in
    (
      record { scope = scope; row = current },
      rw (valid, b, sel) refl,
      rw (valid, after, there) (ap ok (sym en)),
      ap (λ (x : Note). x.row.revision) en ∙ rev,
      ap (λ (x : Note). x.row.created_at) en ∙ made,
      λ j other. rw (after, b, select-update_rows id j new rows own_id, other) refl,
    )

-- Of two updates of a note that expect the same revision, the second, made to the store that
-- the first has left, is refused as a conflict, whatever it changes.
pub update-stale :
    (scope : Scope) (id : String) (ch ch' : Changes) (now now' revision : ℕ) (s s' : NoteStore)
    (n : Note)
    → update scope id ch now s ≡ ok (s', n)
    → ch.revision ≡ some revision
    → ch'.revision ≡ some revision
    → update scope id ch' now' s' ≡ err revision_conflict
unfolding update changed
update-stale scope id ch ch' now now' revision s s' n h r r' =
    let (rows, current, new, valid, b, sel, d, es, en) = update-ok scope id ch now s s' n h in
    let (fresh, own, rev, made) = changed-ok ch now current new d in
    let own_id : new.note_id ≡ id = own ∙ select-id id rows current sel in
    let there : select id (update_rows id new rows) ≡ some new =
      select-update_rows id id new rows own_id ∙ rw (eq_refl id, sel) refl in
    let after : rows_of scope s' ≡ ok (update_rows id new rows) =
      ap (rows_of scope) es ∙ rows_of-with_rows scope (update_rows id new rows) s b in
    let was : conflicts (some revision) current.revision ≡ false =
      ap (λ x. conflicts x current.revision) (sym r) ∙ fresh in
    let stale : conflicts ch'.revision new.revision ≡ true =
      ap (λ x. conflicts x new.revision) r' ∙ ground arith in
    rw (valid, after, there, stale) refl
