-- ===== src/Journal/Tail.antt =====
-- The loop over blocks against one pass over all the lines of the file.
use mathlib.Core.List.{reverse, reverse-append, append_assoc, append-nil}
use angelus.Prelude.{
  ℕ, zero, suc, ◌+◌, ◌-◌, ◌≤◌, ◌<◌, ◌≡◌, refl, ap, sym, ◌∙◌, true, false, Option, some, List, [],
  ◌∷◌, ◌++◌, arith, if◌then◌else◌, ltb, leb, length, take, drop, length-append, Bool-cases, inl,
  inr, Result, ok, err, ◌>>=◌,
}
use angelus.Journal.{
  Loaded, object, scalar, malformed, undecodable, JournalError, split_lines, numbered, strip,
  left_strip, load_text, parse_line, after_line, collect, split_block, after_block, read_blocks,
}
use angelus.Journal.Lines.{
  extent, split_lines-nonempty, split_lines-carry, extent-split_lines, numbered-append,
}

take-nil : (n : ℕ) → take {A = ℕ} n [] ≡ []
take-nil zero = refl
take-nil (suc n) = refl

pub take-drop : (m p : ℕ) (xs : List ℕ) → m ≤ p → take p xs ≡ take m xs ++ take (p - m) (drop m xs)
take-drop zero p xs h = ap (λ m. take m xs) (omega arith)
take-drop (suc m) zero xs h = absurd (omega arith)
take-drop (suc m) (suc p) [] h = sym (take-nil (suc p - suc m))
take-drop (suc m) (suc p) (x ∷ xs) h =
    let q : p - m ≡ suc p - suc m = omega arith in
    ap (λ t. x ∷ t) (take-drop m p xs (omega arith) ∙ ap (λ k. take m xs ++ take k (drop m xs)) q)

pub length-take : (n : ℕ) (xs : List ℕ) → n ≤ length xs → length (take n xs) ≡ n
length-take zero xs h = refl
length-take (suc n) [] h = absurd (omega arith)
length-take (suc n) (x ∷ xs) h = omega (arith, length-take n xs)

-- All the lines of a text with their offsets, newest first.
unfoldable pub lines_of : List ℕ → List (ℕ × List ℕ)
lines_of text = reverse (numbered 0 (split_lines text))

-- The lines of a text, read in two parts: what stands behind the seam, and what stands before it
-- together with the line at the seam.
lines_of-carry :
    (p t x : List ℕ) (xs : List (List ℕ))
    → split_lines t ≡ x ∷ xs
    → lines_of (p ++ t) ≡ reverse (numbered (length p + length x + 1) xs) ++ lines_of (p ++ x)
unfolding lines_of
lines_of-carry p t x xs e =
    let h : 0 + extent (split_lines (p ++ x)) ≡ length p + length x + 1 =
      omega (arith, extent-split_lines (p ++ x), length-append p x) in
    rw (split_lines-carry p t x xs e, numbered-append 0 (split_lines (p ++ x)) xs, h)
      (reverse-append (numbered 0 (split_lines (p ++ x))) (numbered (length p + length x + 1) xs))

-- The state of the loop at `position`: the file before it, and the carried part of a line.
abbrev remaining : List ℕ → ℕ → List ℕ → List (ℕ × List ℕ)
remaining file position carry = lines_of (take position file ++ carry)

remaining-block :
    (file carry : List ℕ) (start position : ℕ)
    → start ≤ position
    → remaining file position carry
      ≡ lines_of (take start file ++ (take (position - start) (drop start file) ++ carry))
remaining-block file carry start position h = ap lines_of (
    ap (λ t. t ++ carry) (take-drop start position file h)
    ∙ append_assoc (take start file) (take (position - start) (drop start file)) carry)

-- The next block reads the newest of the remaining lines, and leaves the others.
inside_step :
    (file carry x : List ℕ) (start position : ℕ) (xs : List (List ℕ))
    → start ≤ position
    → position ≤ length file
    → split_lines (take (position - start) (drop start file) ++ carry) ≡ x ∷ xs
    → remaining file position carry
      ≡ reverse (numbered (start + length x + 1) xs) ++ remaining file start x
inside_step file carry x start position xs h k e =
    let n : length (take start file) + length x + 1 ≡ start + length x + 1 =
      omega (arith, length-take start file) in
    remaining-block file carry start position h
    ∙ lines_of-carry (take start file) (take (position - start) (drop start file) ++ carry) x xs e
    ∙ ap (λ m. reverse (numbered m xs) ++ remaining file start x) n

-- At the beginning of the file all that remains is in the block.
outside_step :
    (file carry : List ℕ) (start position : ℕ)
    → start ≡ 0
    → remaining file position carry
      ≡ reverse (numbered start (split_lines (take (position - start) (drop start file) ++ carry)))
unfolding lines_of
outside_step file carry zero position z = remaining-block file carry 0 position (omega arith)
outside_step file carry (suc start) position z = absurd (omega arith)

module _ {V : Type 0} (loads : List ℕ → Loaded V) (maximum : ℕ) where
  -- The reading goes on with these lines, unless the page is full.
  abbrev pub unless_full : List (ℕ × V) → List (ℕ × List ℕ) → Result JournalError (List (ℕ × V))
  unless_full records pairs =
      if leb (length records) maximum then collect loads maximum records pairs else ok records

  after_line-append :
      (records : List (ℕ × V)) (offset : ℕ) (line : Loaded V) (xs ys : List (ℕ × List ℕ))
      → leb (length records) maximum ≡ true
      → ((r : List (ℕ × V))
          → leb (length r) maximum ≡ true
          → collect loads maximum r (xs ++ ys)
            ≡ (collect loads maximum r xs >>= λ r'. unless_full r' ys))
      → after_line loads maximum records offset line (λ r. collect loads maximum r (xs ++ ys)) ≡ (
          after_line loads maximum records offset line (λ r. collect loads maximum r xs) >>= λ r'.
          unless_full r' ys)
  unfolding after_line
  after_line-append records offset (object v) xs ys h ih =
      elim (Bool-cases (ltb maximum (length (records ++ (offset, v) ∷ [])))) [
        | inl p ↦
            let q : leb (length (records ++ (offset, v) ∷ [])) maximum ≡ false = ground arith in
            rw (p, q) refl
        | inr p ↦ rw p (ih (records ++ (offset, v) ∷ []) (ground arith))
      ]
  after_line-append records offset scalar xs ys h ih = ih records h
  after_line-append records offset malformed xs ys h ih = ih records h
  after_line-append records offset undecodable xs ys h ih = refl

  collect-append :
      (records : List (ℕ × V)) (xs ys : List (ℕ × List ℕ))
      → leb (length records) maximum ≡ true
      → collect loads maximum records (xs ++ ys)
        ≡ (collect loads maximum records xs >>= λ r. unless_full r ys)
  unfolding collect
  collect-append records [] ys h = rw h refl
  collect-append records ((offset, line) ∷ xs) ys h =
      after_line-append records offset (parse_line loads line) xs ys h
        (λ r q. collect-append r xs ys q)

  collect-empty_line :
      (r : Result JournalError (List (ℕ × V))) → (r >>= λ s. unless_full s (lines_of [])) ≡ r
  unfolding lines_of split_lines numbered collect after_line parse_line load_text strip left_strip
  collect-empty_line (ok r) = ground arith
  collect-empty_line (err e) = refl

  after_block_lem :
      (read : List (ℕ × V) → Option (Result JournalError (List (ℕ × V))))
      (r : Result JournalError (List (ℕ × V))) (ys : List (ℕ × List ℕ))
      → ((r' : List (ℕ × V)) → read r' ≡ some (unless_full r' ys))
      → after_block loads r read ≡ some (r >>= λ r'. unless_full r' ys)
  unfolding after_block
  after_block_lem read (ok r) ys h = h r
  after_block_lem read (err e) ys h = refl

  module _ (file : List ℕ) (block : ℕ) (positive : 0 < block) where
    -- What the loop returns, with enough fuel.
    abbrev Reads : ℕ → ℕ → List ℕ → List (ℕ × V) → Type 0
    Reads fuel position carry records =
        read_blocks loads block maximum file fuel position carry records
        ≡ some (unless_full records (remaining file position carry))

    read_blocks-step :
        (fuel position : ℕ) (carry : List ℕ) (records : List (ℕ × V))
        → position ≤ length file
        → ltb 0 position ≡ true
        → leb (length records) maximum ≡ true
        → ((carry' : List ℕ) (r : List (ℕ × V))
            → (position - block ≡ 0 → carry' ≡ [])
            → Reads fuel (position - block) carry' r)
        → Reads (suc fuel) position carry records
    unfolding read_blocks split_block numbered
    read_blocks-step fuel position carry records within more room ih =
        let start : ℕ = position - block in
        let bytes : List ℕ = take (position - start) (drop start file) in
        let (x, xs, e) = split_lines-nonempty (bytes ++ carry) in
        elim (Bool-cases (ltb 0 start)) [
          | inl p ↦
              rw
                (
                  more,
                  room,
                  p,
                  e,
                  inside_step file carry x start position xs (omega arith) within e,
                )
                (after_block_lem (λ r. read_blocks loads block maximum file fuel start x r)
                    (collect loads maximum records (reverse (numbered (start + length x + 1) xs)))
                    (remaining file start x) (λ r. ih x r (λ z. absurd (ground arith)))
                  ∙ ap some (sym (collect-append records _ _ room)))
          | inr p ↦
              let z : start ≡ 0 = ground arith in
              let all : List (ℕ × List ℕ) =
                reverse (numbered start (split_lines (bytes ++ carry))) in
              rw (more, room, p, outside_step file carry start position z)
                (after_block_lem (λ r. read_blocks loads block maximum file fuel start [] r)
                    (collect loads maximum records all) (remaining file start [])
                    (λ r. ih [] r (λ _. refl))
                  ∙ ap some (
                      ap
                        (λ m. collect loads maximum records all >>= λ r.
                          unless_full r (remaining file m []))
                        z
                      ∙ collect-empty_line (collect loads maximum records all)))
        ]

    -- With more fuel than there are bytes to read, the loop ends, and it has collected the lines of
    -- the file as one pass over all of them does.
    read_blocks_lem :
        (fuel position : ℕ) (carry : List ℕ) (records : List (ℕ × V))
        → position < fuel
        → position ≤ length file
        → (position ≡ 0 → carry ≡ [])
        → Reads fuel position carry records
    unfolding read_blocks
    read_blocks_lem zero position carry records enough within none_carried = absurd (omega arith)
    read_blocks_lem (suc fuel) position carry records enough within none_carried =
        elim (Bool-cases (ltb 0 position)) [
          | inl p ↦ elim (Bool-cases (leb (length records) maximum)) [
            | inl q ↦ read_blocks-step fuel position carry records within p q (λ carry' r c.
                read_blocks_lem fuel (position - block) carry' r (ground arith) (omega arith) c)
            | inr q ↦ rw (p, q) refl
          ]
          | inr p ↦
              let z : position ≡ 0 = ground arith in
              let c = none_carried z in
              rw (p, c, z) (ap some (sym (collect-empty_line (ok records))))
        ]

  module _ (block : ℕ) (positive : 0 < block) (file : List ℕ) where
    pub read_blocks-collect :
        (fuel position : ℕ)
        → position < fuel
        → position ≤ length file
        → read_blocks loads block maximum file fuel position [] []
          ≡ some (collect loads maximum [] (lines_of (take position file)))
    read_blocks-collect fuel position enough within =
        let e : leb 0 maximum ≡ true = ground arith in
        read_blocks_lem file block positive fuel position [] [] enough within (λ _. refl)
        ∙ rw (e, append-nil (take position file)) refl
