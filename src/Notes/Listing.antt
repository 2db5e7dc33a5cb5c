-- ===== src/Notes/Listing.antt =====
-- What lists and searches of notes show.
use angelus.Prelude.{
  ℕ, zero, suc, ◌≤◌, ◌≡◌, refl, sym, ap, ◌∙◌, min, max, Bool, true, false, ◌&&◌, List, [], ◌∷◌,
  ◌++◌, arith, ok, >>=-ok, length, take, keep, all, subst,
}
use angelus.Notes.Texts.{Text, validate_text}
use angelus.Notes.Store.{
  Scope, Row, Note, NoteStore, rows_of, is_active, as_notes, list, search, found_in, spaced,
}

all-keep_self {ℓ} : {A : Type ℓ} (p : A → Bool) (xs : List A) → all p (keep p xs) ≡ true
all-keep_self p [] = refl
all-keep_self p (x ∷ xs) = ground (arith, all-keep_self p xs)

all-keep {ℓ} :
    {A : Type ℓ} (p q : A → Bool) (xs : List A) → all p xs ≡ true → all p (keep q xs) ≡ true
all-keep p q [] h = refl
all-keep p q (x ∷ xs) h = ground (arith, all-keep p q xs)

all-take {ℓ} :
    {A : Type ℓ} (p : A → Bool) (n : ℕ) (xs : List A) → all p xs ≡ true → all p (take n xs) ≡ true
all-take p zero xs h = refl
all-take p (suc n) [] h = refl
all-take p (suc n) (x ∷ xs) h = ground (arith, all-take p n xs)

length-take-le {ℓ} : {A : Type ℓ} (n : ℕ) (xs : List A) → length (take n xs) ≤ n
length-take-le zero xs = omega arith
length-take-le (suc n) [] = omega arith
length-take-le (suc n) (x ∷ xs) = omega (arith, length-take-le n xs)

abbrev pub note_active : Note → Bool
note_active note = is_active note.row.status

all-as_notes :
    (scope : Scope) (rows : List Row)
    → all note_active (as_notes scope rows) ≡ all (λ r. is_active r.status) rows
all-as_notes scope [] = refl
all-as_notes scope (row ∷ rows) = ap (λ b. is_active row.status && b) (all-as_notes scope rows)

module _ (newest_first : List Row → List Row) where
  -- Sorting rows gives no other rows.
  abbrev pub GivesRows : Type 0
  GivesRows =
      (p : Row → Bool) (rows : List Row) → all p rows ≡ true → all p (newest_first rows) ≡ true

  list-active :
      GivesRows
      → (scope : Scope) (limit : ℕ) (s : NoteStore) (notes : List Note)
      → list newest_first scope false limit s ≡ ok notes
      → all note_active notes ≡ true
  unfolding list
  list-active law scope limit s notes h =
      let (rows, a, h1) = >>=-ok (rows_of scope s) _ h in
      let shown : List Row = keep (λ r. is_active r.status) rows in
      let e : as_notes scope (take (max 1 (min limit 500)) (newest_first shown)) ≡ notes = cc in
      ap (all note_active) (sym e)
      ∙ all-as_notes scope (take (max 1 (min limit 500)) (newest_first shown))
      ∙ all-take (λ r. is_active r.status) (max 1 (min limit 500)) (newest_first shown)
          (law (λ r. is_active r.status) shown (all-keep_self (λ r. is_active r.status) rows))

  -- A search shows active notes only, and at most 100 of them and at most the limit asked for
  -- or one, for any ordering of the rows that gives no other rows.
  pub search-active :
      (casefold : Text → Text)
      → GivesRows
      → (scope : Scope) (query : Text) (limit : ℕ) (s : NoteStore) (notes : List Note)
      → search newest_first casefold scope query limit s ≡ ok notes
      → (all note_active notes ≡ true) × (length notes ≤ 100) × (length notes ≤ max 1 limit)
  unfolding search
  search-active casefold law scope query limit s notes h =
      let (needle, a, h1) = >>=-ok (validate_text query) _ h in
      let (listed, b, h2) = >>=-ok (list newest_first scope false 500 s) _ h1 in
      let test : Note → Bool = λ note.
        found_in (casefold needle)
          (casefold (note.row.title ++ 10 ∷ (note.row.content ++ 10 ∷ spaced note.row.tags))) in
      let n : ℕ = max 1 (min limit 100) in
      let e : take n (keep test listed) ≡ notes = cc in
      let bound : length notes ≤ n =
        subst (λ xs. length xs ≤ n) e (length-take-le n (keep test listed)) in
      (
        ap (all note_active) (sym e)
            ∙ all-take note_active n (keep test listed)
                (all-keep note_active test listed (list-active law scope 500 s listed b)),
        omega arith,
        omega arith,
      )
