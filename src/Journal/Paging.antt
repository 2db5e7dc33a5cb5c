-- ===== src/Journal/Paging.antt =====
-- Consecutive pages of a journal: what the offset of a page leads to.
use mathlib.Core.List.{reverse, reverse-append, reverse-reverse, reverse-cons, append_assoc}
use angelus.Prelude.{
  ℕ, zero, suc, ◌+◌, ◌≤◌, ◌<◌, ◌≡◌, refl, ap, subst, sym, ◌∙◌, max, Option, none, some, List, [],
  ◌∷◌, ◌++◌, map, arith, ltb, length, take, drop, Bool-cases, inl, inr, Result, ok, err,
}
use angelus.Journal.{
  Loaded, JournalError, JournalPage, split_lines, numbered, strip, left_strip, load_text,
  parse_line, collect, page_of, last_offset, page_maximum, page_end, read_journal_before,
  unicode_decode_error, after_line, page_result, finish_read, undecodable,
}
use angelus.Journal.Lines.{extent, extent-split_lines, numbered-append}
use angelus.Journal.Tail.{lines_of, length-take}
use angelus.Journal.Seams.{seam, numbered-position}
use angelus.Journal.Records.{records_of, AllLoad, page-EndsAt}
use angelus.Journal.Pages.{
  newest, page_spec, page_end-le-length, read_journal_before-newest, read_journal_before-collect,
}

extent-take :
    (i : ℕ) (lines : List (List ℕ)) → i < length lines → extent (take i lines) < extent lines
extent-take zero [] h = absurd (omega arith)
extent-take zero (x ∷ lines) h = omega arith
extent-take (suc i) [] h = absurd (omega arith)
extent-take (suc i) (x ∷ lines) h = omega (arith, extent-take i lines)

reverse-middle {ℓ} :
    {A : Type ℓ} (a b : List A) (x : A) → reverse (a ++ x ∷ b) ≡ reverse b ++ x ∷ reverse a
reverse-middle a b x =
    reverse-append a (x ∷ b)
    ∙ ap (λ t. t ++ reverse a) (reverse-cons x b)
    ∙ append_assoc (reverse b) (x ∷ []) (reverse a)

-- Cut at the offset of one of its lines, a text has the older lines and an empty one.
lines_of-cut :
    (text : List ℕ) (k : ℕ) (newer older : List (ℕ × List ℕ)) (line : List ℕ)
    → lines_of text ≡ newer ++ (k, line) ∷ older
    → (lines_of (take k text) ≡ (k, []) ∷ older) × (k ≤ length text)
unfolding lines_of numbered
lines_of-cut text k newer older line e =
    let lines : List (List ℕ) = split_lines text in
    let e' : numbered 0 lines ≡ reverse (newer ++ (k, line) ∷ older) =
      sym (reverse-reverse (numbered 0 lines)) ∙ ap reverse e in
    let f : numbered 0 lines ≡ reverse older ++ (k, line) ∷ reverse newer =
      e' ∙ reverse-middle newer older (k, line) in
    let (a, b, c) = numbered-position 0 k lines (reverse older) (reverse newer) line f in
    let i : ℕ = length (reverse older) in
    let z : extent (take i lines) ≡ k = omega arith in
    let s : split_lines (take k text) ≡ take i lines ++ [] ∷ [] =
      ap (λ m. split_lines (take m text)) (sym z) ∙ seam i text lines refl c in
    let rev : reverse (numbered 0 (take i lines)) ≡ older = ap reverse b ∙ reverse-reverse older in
    (
      rw s (
          ap reverse (numbered-append 0 (take i lines) ([] ∷ []))
          ∙ reverse-append (numbered 0 (take i lines)) ((0 + extent (take i lines), []) ∷ [])
          ∙ rw (rev, a) refl),
      omega (arith, extent-take i lines c, extent-split_lines text),
    )

take-take {ℓ} : {A : Type ℓ} (k n : ℕ) (xs : List A) → k ≤ n → take k (take n xs) ≡ take k xs
take-take zero n xs h = refl
take-take (suc k) zero xs h = absurd (omega arith)
take-take (suc k) (suc n) [] h = refl
take-take (suc k) (suc n) (x ∷ xs) h = ap (λ t. x ∷ t) (take-take k n xs (omega arith))

length-take-le {ℓ} : {A : Type ℓ} (n : ℕ) (xs : List A) → length (take n xs) ≤ n
length-take-le zero xs = omega arith
length-take-le (suc n) [] = omega arith
length-take-le (suc n) (x ∷ xs) = omega (arith, length-take-le n xs)

module _ {V : Type 0} (loads : List ℕ → Loaded V) where
  AllLoad-append : (a b : List (ℕ × List ℕ)) → AllLoad loads (a ++ b) → AllLoad loads b
  AllLoad-append [] b h = h
  AllLoad-append ((offset, line) ∷ a) b (h, hs) = AllLoad-append a b hs

  -- What an offset that ends a page leads to.
  newest-cut :
      (file : List ℕ) (position m k : ℕ)
      → position ≤ length file
      → 0 < m
      → last_offset (take m (newest loads file position)) ≡ some k
      → AllLoad loads (lines_of (take position file))
      → (k ≤ position)
        × (newest loads file k ≡ drop m (newest loads file position))
        × AllLoad loads (lines_of (take k file))
  unfolding newest records_of parse_line load_text strip left_strip
  newest-cut file position m k within pos e load =
      let (newer, line, older, p, q) =
        page-EndsAt loads (lines_of (take position file)) m k pos e in
      let (r, le) = lines_of-cut (take position file) k newer older line p in
      let k-le : k ≤ position = omega (arith, length-take position file within) in
      let cut : lines_of (take k file) ≡ (k, []) ∷ older =
        ap lines_of (sym (take-take k position file k-le)) ∙ r in
      let loaded : AllLoad loads ((k, line) ∷ older) =
        AllLoad-append newer ((k, line) ∷ older) (subst (AllLoad loads) p load) in
      (k-le, ap (records_of loads) cut ∙ sym q, subst (AllLoad loads) (sym cut) (tt, loaded.1))

next_before-last_offset :
    {V : Type 0} (maximum k : ℕ) (records : List (ℕ × V))
    → (page_spec maximum records).next_before ≡ some k
    → last_offset (take maximum records) ≡ some k
unfolding page_spec
next_before-last_offset maximum k records e = elim (Bool-cases (ltb maximum (length records))) [
  | inl p ↦ let e' : last_offset (take maximum records) ≡ some k = rw p at e in e'
  | inr p ↦ let e' : none ≡ some k = rw p at e in cc
]

length-map {ℓ κ} :
    {A : Type ℓ} {B : Type κ} (f : A → B) (xs : List A) → length (map f xs) ≡ length xs
length-map f [] = refl
length-map f (x ∷ xs) = omega (arith, length-map f xs)

finish_read-length :
    {V : Type 0} (maximum : ℕ) (r : Option (Result JournalError (List (ℕ × V))))
    (page : JournalPage V)
    → finish_read maximum r ≡ some (ok page)
    → length page.events ≤ maximum
unfolding finish_read page_result page_of
finish_read-length maximum none page e = cc
finish_read-length maximum (some (err x)) page e = cc
finish_read-length {V} maximum (some (ok records)) page e =
    let h : map (λ item. item.1) (take maximum records) ≡ page.events = cc in
    omega (
      arith,
      ap length h,
      length-map (λ (item : ℕ × V). item.1) (take maximum records),
      length-take-le maximum records,
    )

module _ {V : Type 0} (loads : List ℕ → Loaded V) (block : ℕ) (positive : 0 < block) where
  -- If a page that was read ends with an offset to go on from, the read from that offset gives
  -- the page that follows it in the list of all records, newest first: the records behind the
  -- first page, none repeated and none skipped, for any block size, any new limit, and lines
  -- that load or are refused as malformed.
  pub read_journal_before-pages :
      (file : List ℕ) (before : Option ℕ) (limit limit' fuel k : ℕ) (page : JournalPage V)
      → page_end file before < fuel
      → AllLoad loads (lines_of (take (page_end file before) file))
      → read_journal_before loads block (some file) before limit fuel ≡ some (ok page)
      → page.next_before ≡ some k
      → read_journal_before loads block (some file) (some k) limit' fuel
        ≡ some (
            ok (
              page_spec
                (page_maximum limit')
                (drop (page_maximum limit) (newest loads file (page_end file before)))))
  read_journal_before-pages file before limit limit' fuel k page enough load read next =
      let records : List (ℕ × V) = newest loads file (page_end file before) in
      let whole =
        read_journal_before-newest loads block positive file before limit fuel enough load in
      let same : page_spec (page_maximum limit) records ≡ page = cc in
      let ends = next_before-last_offset (page_maximum limit) k records (cc) in
      let within = page_end-le-length file before in
      let (le, cut, load') =
        newest-cut loads file (page_end file before) (page_maximum limit) k within (omega arith)
          ends load in
      let stop : page_end file (some k) ≡ k = omega arith in
      read_journal_before-newest loads block positive file (some k) limit' fuel (omega arith)
        (subst (λ n. AllLoad loads (lines_of (take n file))) (sym stop) load')
      ∙ ap (λ n. some (ok (page_spec (page_maximum limit') (newest loads file n)))) stop
      ∙ ap (λ r. some (ok (page_spec (page_maximum limit') r))) cut

  -- If the newest line before the offset makes `json.loads` raise something else than a
  -- `JSONDecodeError`, as a multi-byte character cut short does, no page is read at all and
  -- that exception leaves the reader, whatever older records there are.
  pub read_journal_before-torn :
      (file : List ℕ) (before : Option ℕ) (limit fuel n : ℕ) (line : List ℕ)
      (older : List (ℕ × List ℕ))
      → page_end file before < fuel
      → lines_of (take (page_end file before) file) ≡ (n, line) ∷ older
      → parse_line loads line ≡ undecodable
      → read_journal_before loads block (some file) before limit fuel
        ≡ some (err unicode_decode_error)
  unfolding collect after_line page_result
  read_journal_before-torn file before limit fuel n line older enough e torn =
      read_journal_before-collect loads block positive file before limit fuel enough
      ∙ rw (e, torn) refl

module _ {V : Type 0} (loads : List ℕ → Loaded V) (block : ℕ) where
  -- A page holds at most 500 records, and at most the limit asked for or one, whatever the
  -- file, the offset and the fuel.
  pub length-read_journal_before :
      (file : Option (List ℕ)) (before : Option ℕ) (limit fuel : ℕ) (page : JournalPage V)
      → read_journal_before loads block file before limit fuel ≡ some (ok page)
      → (length page.events ≤ 500) × (length page.events ≤ max 1 limit)
  unfolding read_journal_before
  length-read_journal_before none before limit fuel page e =
      let h : [] ≡ page.events = cc in (omega (arith, ap length h), omega (arith, ap length h))
  length-read_journal_before (some file) before limit fuel page e =
      let h = finish_read-length (page_maximum limit) _ page e in (omega arith, omega arith)
