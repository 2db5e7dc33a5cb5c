-- ===== src/Journal/Lines.antt =====
-- Lines of a file and their offsets: how `split` and the running offsets meet concatenation.
use angelus.Prelude.{
  ℕ, ◌+◌, ◌≡◌, refl, ap, sym, ◌∙◌, Bool, true, false, List, [], ◌∷◌, ◌++◌, arith, if◌then◌else◌,
  length, Bool-cases, inl, inr,
}
use angelus.Journal.{is_newline, push_front, split_lines, numbered}

-- The bytes that lines and their line breaks take.
abbrev pub extent : List (List ℕ) → ℕ
extent [] = 0
extent (line ∷ lines) = length line + 1 + extent lines

-- Text whose lines are `a`, put before text whose lines are `b`: the lines at the seam are joined.
abbrev pub join : List (List ℕ) → List (List ℕ) → List (List ℕ)
join [] b = b
join (line ∷ []) [] = line ∷ []
join (line ∷ []) (x ∷ b) = (line ++ x) ∷ b
join (line ∷ (other ∷ a)) b = line ∷ join (other ∷ a) b

join-push_front :
    (c : ℕ) (x : List ℕ) (a b : List (List ℕ))
    → join (push_front c (x ∷ a)) b ≡ push_front c (join (x ∷ a) b)
join-push_front c x [] [] = refl
join-push_front c x [] (y ∷ b) = refl
join-push_front c x (z ∷ a) b = refl

pub split_lines-nonempty :
    (t : List ℕ) → (x : List ℕ) × (xs : List (List ℕ)) × (split_lines t ≡ x ∷ xs)
unfolding split_lines
split_lines-nonempty [] = ([], [], refl)
split_lines-nonempty (c ∷ cs) =
    let (x, xs, e) = split_lines-nonempty cs in
    elim (Bool-cases (is_newline c)) [
      | inl p ↦ ([], split_lines cs, rw p refl)
      | inr p ↦ (c ∷ x, xs, rw (p, e) refl)
    ]

split_step :
    (c : ℕ) (b : Bool) (l : List (List ℕ)) (t s : List (List ℕ))
    → (x : List ℕ) (xs : List (List ℕ)) → l ≡ x ∷ xs
    → (if b then [] ∷ join l t else push_front c (join l t))
      ≡ join (if b then [] ∷ l else push_front c l) t
split_step c true l t s x xs e = rw e refl
split_step c false l t s x xs e = rw e (sym (join-push_front c x xs t))

pub split_lines-append :
    (a b : List ℕ) → split_lines (a ++ b) ≡ join (split_lines a) (split_lines b)
unfolding split_lines
split_lines-append [] b = let (x, xs, e) = split_lines-nonempty b in rw e refl
split_lines-append (c ∷ a) b =
    let (x, xs, e) = split_lines-nonempty a in
    rw (split_lines-append a b)
      (split_step c (is_newline c) (split_lines a) (split_lines b) [] x xs e)

join-assoc_one :
    (a : List (List ℕ)) (x : List ℕ) (xs : List (List ℕ))
    → (y : List ℕ) (ys : List (List ℕ)) → a ≡ y ∷ ys
    → join a (x ∷ xs) ≡ join a (x ∷ []) ++ xs
join-assoc_one [] x xs y ys e = cc
join-assoc_one (l ∷ []) x xs y ys e = refl
join-assoc_one (l ∷ (m ∷ a)) x xs y ys e = ap (λ t. l ∷ t) (join-assoc_one (m ∷ a) x xs m a refl)

-- A line that holds no line break is one line.
abbrev IsLine : List ℕ → Type 0
IsLine x = split_lines x ≡ x ∷ []

cons-IsLine : (c : ℕ) (x : List ℕ) → is_newline c ≡ false → IsLine x → IsLine (c ∷ x)
unfolding split_lines
cons-IsLine c x p e = rw (p, e) refl

-- The first line of a text holds no line break.
pub first-IsLine :
    (t x : List ℕ) (xs : List (List ℕ)) → split_lines t ≡ x ∷ xs → split_lines x ≡ x ∷ []
unfolding split_lines
first-IsLine [] x xs e = let q : [] ≡ x = cc in rw (sym q) refl
first-IsLine (c ∷ cs) x xs e =
    let (y, ys, f) = split_lines-nonempty cs in
    elim (Bool-cases (is_newline c)) [
      | inl p ↦
          let e' : [] ∷ split_lines cs ≡ x ∷ xs = rw p at e in
          let q : [] ≡ x = cc in rw (sym q) refl
      | inr p ↦
          let e' : (c ∷ y) ∷ ys ≡ x ∷ xs = rw (p, f) at e in
          let q : c ∷ y ≡ x = cc in rw (sym q) (cons-IsLine c y p (first-IsLine cs y ys f))
    ]

-- A text put before another leaves the lines after the other's first as they are.
pub split_lines-carry :
    (p t x : List ℕ) (xs : List (List ℕ))
    → split_lines t ≡ x ∷ xs
    → split_lines (p ++ t) ≡ split_lines (p ++ x) ++ xs
split_lines-carry p t x xs e =
    let (y, ys, f) = split_lines-nonempty p in
    rw (split_lines-append p t, split_lines-append p x, e, first-IsLine t x xs e)
      (join-assoc_one (split_lines p) x xs y ys f)

pub extent-split_lines : (t : List ℕ) → extent (split_lines t) ≡ length t + 1
unfolding split_lines
extent-split_lines [] = omega arith
extent-split_lines (c ∷ cs) =
    let (x, xs, e) = split_lines-nonempty cs in
    elim (Bool-cases (is_newline c)) [
      | inl p ↦ rw p (omega (arith, extent-split_lines cs))
      | inr p ↦ rw (p, e) (omega (arith, ap extent (sym e) ∙ extent-split_lines cs))
    ]

pub numbered-append :
    (n : ℕ) (a b : List (List ℕ)) → numbered n (a ++ b) ≡ numbered n a ++ numbered (n + extent a) b
unfolding numbered
numbered-append n [] b = ap (λ m. numbered m b) (omega arith)
numbered-append n (x ∷ a) b =
    let h : n + length x + 1 + extent a ≡ n + extent (x ∷ a) = omega arith in
    ap (λ t. (n, x) ∷ t)
      (numbered-append (n + length x + 1) a b
        ∙ ap (λ m. numbered (n + length x + 1) a ++ numbered m b) h)
