-- ===== src/Journal/Seams.antt =====
-- Cutting a file at the beginning of a line: the lines before the cut are the lines of the file.
use mathlib.Core.List.{append-nil}
use angelus.Prelude.{
  ℕ, zero, suc, ◌+◌, ◌<◌, ◌≡◌, refl, ap, sym, ◌∙◌, List, [], ◌∷◌, ◌++◌, arith, length, take,
  Bool-cases, inl, inr,
}
use angelus.Journal.{is_newline, split_lines, numbered}
use angelus.Journal.Lines.{extent, join, split_lines-nonempty, split_lines-append, first-IsLine}

-- A text of more than one line is its first line, a line break and the text of the others.
first_break :
    (t x y : List ℕ) (ys : List (List ℕ))
    → split_lines t ≡ x ∷ (y ∷ ys)
    → (t' : List ℕ) × (t ≡ x ++ 10 ∷ t') × (split_lines t' ≡ y ∷ ys)
unfolding split_lines
first_break [] x y ys e = cc
first_break (c ∷ t) x y ys e =
    let (z, zs, f) = split_lines-nonempty t in
    elim (Bool-cases (is_newline c)) [
      | inl p ↦
          let e' : [] ∷ split_lines t ≡ x ∷ (y ∷ ys) = rw p at e in
          let h : [] ≡ x = cc in let ten : c ≡ 10 = ground arith in (t, rw (ten, sym h) refl, cc)
      | inr p ↦
          let e' : (c ∷ z) ∷ zs ≡ x ∷ (y ∷ ys) = rw (p, f) at e in
          let h : c ∷ z ≡ x = cc in
          let g : split_lines t ≡ z ∷ (y ∷ ys) = cc in
          let (t', q, r) = first_break t z y ys g in (t', rw (sym h) (ap (λ u. c ∷ u) q), r)
    ]

take-past :
    (x : List ℕ) (n : ℕ) (t : List ℕ) → take (length x + 1 + n) (x ++ 10 ∷ t) ≡ x ++ 10 ∷ take n t
take-past [] n t = ap (λ m. take m (10 ∷ t)) (let h : 0 + 1 + n ≡ suc n = omega arith in h)
take-past (c ∷ x) n t =
    let h : length (c ∷ x) + 1 + n ≡ suc (length x + 1 + n) = omega arith in
    ap (λ m. take m (c ∷ (x ++ 10 ∷ t))) h ∙ ap (λ u. c ∷ u) (take-past x n t)

split_lines-line :
    (t x : List ℕ) (xs : List (List ℕ)) (u : List ℕ)
    → split_lines t ≡ x ∷ xs
    → split_lines (x ++ 10 ∷ u) ≡ x ∷ split_lines u
unfolding split_lines
split_lines-line t x xs u e =
    split_lines-append x (10 ∷ u)
    ∙ ap (λ l. join l ([] ∷ split_lines u)) (first-IsLine t x xs e)
    ∙ ap (λ l. l ∷ split_lines u) (append-nil x)

-- Cut at the beginning of line `i`, a text keeps the lines before it, and an empty line.
pub seam :
    (i : ℕ) (t : List ℕ) (lines : List (List ℕ))
    → split_lines t ≡ lines
    → i < length lines
    → split_lines (take (extent (take i lines)) t) ≡ take i lines ++ [] ∷ []
unfolding split_lines
seam zero t lines e h = refl
seam (suc i) t [] e h = absurd (omega arith)
seam (suc i) t (x ∷ []) e h = absurd (omega arith)
seam (suc i) t (x ∷ (y ∷ ys)) e h =
    let (t', q, r) = first_break t x y ys e in
    rw
      (
        q,
        take-past x (extent (take i (y ∷ ys))) t',
        split_lines-line t x (y ∷ ys) (take (extent (take i (y ∷ ys))) t') e,
      )
      (ap (λ l. x ∷ l) (seam i t' (y ∷ ys) r (omega arith)))

-- Where an offset stands in the numbering, it is the extent of the lines before it.
pub numbered-position :
    (n k : ℕ) (lines : List (List ℕ)) (before after : List (ℕ × List ℕ)) (line : List ℕ)
    → numbered n lines ≡ before ++ (k, line) ∷ after
    → (n + extent (take (length before) lines) ≡ k)
      × (numbered n (take (length before) lines) ≡ before)
      × (length before < length lines)
unfolding numbered
numbered-position n k [] [] after line e = cc
numbered-position n k [] (p ∷ before) after line e = cc
numbered-position n k (x ∷ lines) [] after line e =
    let h : n ≡ k = ground arith in (omega arith, refl, omega arith)
numbered-position n k (x ∷ lines) (p ∷ before) after line e =
    let e' : numbered (n + length x + 1) lines ≡ before ++ (k, line) ∷ after = cc in
    let first : (n, x) ≡ p = cc in
    let (a, b, c) = numbered-position (n + length x + 1) k lines before after line e' in
    (omega arith, rw (b, first) refl, omega arith)
