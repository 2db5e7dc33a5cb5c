-- ===== src/Journal/Pages.antt =====
-- Pages of a journal against the list of all its records.
use angelus.Prelude.{
  ℕ, zero, suc, ◌≤◌, ◌<◌, ◌≡◌, refl, ap, ◌∙◌, Option, none, some, List, [], ◌∷◌, map, arith,
  if◌then◌else◌, ltb, length, take, ok,
}
use angelus.Journal.{
  Loaded, JournalPage, collect, page_of, page_result, finish_read, last_offset, page_maximum,
  page_end, read_journal_before,
}
use angelus.Journal.Tail.{lines_of, read_blocks-collect}
use angelus.Journal.Records.{records_of, AllLoad, collect-records_of}

pub page_end-le-length : (file : List ℕ) (before : Option ℕ) → page_end file before ≤ length file
page_end-le-length file none = omega arith
page_end-le-length file (some before) = ground arith

-- The records before an offset, newest first, read in one pass.
unfoldable pub newest : {V : Type 0} → (List ℕ → Loaded V) → List ℕ → ℕ → List (ℕ × V)
newest loads file position = records_of loads (lines_of (take position file))

-- The page of at most `maximum` of the records, newest first.
unfoldable pub page_spec : {V : Type 0} → ℕ → List (ℕ × V) → JournalPage V
page_spec maximum records = record {
  events = take maximum (map (λ item. item.1) records);
  next_before = if ltb maximum (length records) then last_offset (take maximum records) else none;
  has_more = ltb maximum (length records);
}

take-map {ℓ κ} :
    {A : Type ℓ} {B : Type κ} (f : A → B) (n : ℕ) (xs : List A)
    → map f (take n xs) ≡ take n (map f xs)
take-map f zero xs = refl
take-map f (suc n) [] = refl
take-map f (suc n) (x ∷ xs) = ap (λ t. f x ∷ t) (take-map f n xs)

take-take-suc {ℓ} : {A : Type ℓ} (n : ℕ) (xs : List A) → take n (take (suc n) xs) ≡ take n xs
take-take-suc zero xs = refl
take-take-suc (suc n) [] = refl
take-take-suc (suc n) (x ∷ xs) = ap (λ t. x ∷ t) (take-take-suc n xs)

overfull-take {ℓ} :
    {A : Type ℓ} (n : ℕ) (xs : List A) → ltb n (length (take (suc n) xs)) ≡ ltb n (length xs)
overfull-take zero [] = refl
overfull-take zero (x ∷ xs) = ground arith
overfull-take (suc n) [] = refl
overfull-take (suc n) (x ∷ xs) = ground (arith, overfull-take n xs)

page_of-take :
    {V : Type 0} (maximum : ℕ) (records : List (ℕ × V))
    → page_of maximum (take (suc maximum) records) ≡ page_spec maximum records
unfolding page_of page_spec
page_of-take maximum records =
    rw
      (
        overfull-take maximum records,
        take-take-suc maximum records,
        take-map (λ (item : ℕ × _). item.1) maximum records,
      )
      refl

module _ {V : Type 0} (loads : List ℕ → Loaded V) (block : ℕ) (positive : 0 < block) where
  -- The backward reader returns once its fuel exceeds the offset that it starts from, whatever
  -- the block size, and its page or its error is that of one pass over all lines before that
  -- offset, newest first.
  pub read_journal_before-collect :
      (file : List ℕ) (before : Option ℕ) (limit fuel : ℕ)
      → page_end file before < fuel
      → read_journal_before loads block (some file) before limit fuel
        ≡ some (
            page_result
              (page_maximum limit)
              (collect loads (page_maximum limit) [] (lines_of (take (page_end file before) file))))
  unfolding read_journal_before finish_read
  read_journal_before-collect file before limit fuel enough =
      ap (finish_read (page_maximum limit)) (
        read_blocks-collect loads (page_maximum limit) block positive file fuel
          (page_end file before) enough (page_end-le-length file before))

  -- If every line before the offset loads or is refused as malformed, the page holds the newest
  -- dicts, as many as the bounded limit, says that there are more exactly if there are, and
  -- then names the offset of its oldest one.
  pub read_journal_before-newest :
      (file : List ℕ) (before : Option ℕ) (limit fuel : ℕ)
      → page_end file before < fuel
      → AllLoad loads (lines_of (take (page_end file before) file))
      → read_journal_before loads block (some file) before limit fuel
        ≡ some (ok (page_spec (page_maximum limit) (newest loads file (page_end file before))))
  unfolding page_result newest
  read_journal_before-newest file before limit fuel enough load =
      read_journal_before-collect file before limit fuel enough
      ∙ ap (λ r. some (page_result (page_maximum limit) r))
          (collect-records_of loads (page_maximum limit) []
            (lines_of (take (page_end file before) file)) (omega arith) load)
      ∙ ap (λ p. some (ok p))
          (page_of-take (page_maximum limit) (newest loads file (page_end file before)))
