-- ===== src/Journal/Records.antt =====
-- The records of a journal as one list, newest first, and what the inner loop collects of it.
use angelus.Prelude.{
  ℕ, zero, suc, ◌+◌, ◌≤◌, ◌<◌, ◌≡◌, refl, ap, sym, ◌∙◌, some, List, [], ◌∷◌, ◌++◌, arith, ltb,
  length, take, drop, length-append, Bool-cases, ◌⊎◌, inl, inr, ok,
}
use mathlib.Core.List.{append-nil, append_assoc}
use angelus.Journal.{
  Loaded, object, scalar, malformed, undecodable, parse_line, after_line, collect, last_offset,
}

abbrev pub add_record : {V : Type 0} → ℕ → Loaded V → List (ℕ × V) → List (ℕ × V)
add_record offset (object v) rest = (offset, v) ∷ rest
add_record offset scalar rest = rest
add_record offset malformed rest = rest
add_record offset undecodable rest = rest

-- A line that `json.loads` reads or refuses with a `JSONDecodeError`.
abbrev pub Loads : {V : Type 0} → Loaded V → Type 0
Loads (object v) = Unit
Loads scalar = Unit
Loads malformed = Unit
Loads undecodable = ⊥

take-all {ℓ} : {A : Type ℓ} (n : ℕ) (xs : List A) → length xs ≤ n → take n xs ≡ xs
take-all zero [] h = refl
take-all zero (x ∷ xs) h = absurd (omega arith)
take-all (suc n) [] h = refl
take-all (suc n) (x ∷ xs) h = ap (λ t. x ∷ t) (take-all n xs (omega arith))

take-append_full {ℓ} :
    {A : Type ℓ} (n : ℕ) (xs ys : List A) → length xs ≡ n → take n (xs ++ ys) ≡ xs
take-append_full zero [] ys h = refl
take-append_full zero (x ∷ xs) ys h = absurd (omega arith)
take-append_full (suc n) [] ys h = absurd (omega arith)
take-append_full (suc n) (x ∷ xs) ys h = ap (λ t. x ∷ t) (take-append_full n xs ys (omega arith))

module _ {V : Type 0} (loads : List ℕ → Loaded V) where
  -- The dicts among the lines, with their offsets.
  unfoldable pub records_of : List (ℕ × List ℕ) → List (ℕ × V)
  records_of [] = []
  records_of ((offset, line) ∷ pairs) = add_record offset (parse_line loads line) (records_of pairs)

  abbrev pub AllLoad : List (ℕ × List ℕ) → Type 0
  AllLoad [] = Unit
  AllLoad ((offset, line) ∷ pairs) = Loads (parse_line loads line) × AllLoad pairs

  after_line-records :
      (maximum : ℕ) (records : List (ℕ × V)) (offset : ℕ) (line : Loaded V)
      (pairs : List (ℕ × List ℕ))
      → length records ≤ maximum
      → Loads line
      → ((r : List (ℕ × V))
          → length r ≤ maximum
          → collect loads maximum r pairs ≡ ok (take (suc maximum) (r ++ records_of pairs)))
      → after_line loads maximum records offset line (λ r. collect loads maximum r pairs)
        ≡ ok (take (suc maximum) (records ++ add_record offset line (records_of pairs)))
  unfolding after_line
  after_line-records maximum records offset (object v) pairs h l ih =
      let records' : List (ℕ × V) = records ++ (offset, v) ∷ [] in
      let n : length records' ≡ length records + 1 = length-append records ((offset, v) ∷ []) in
      let joined = append_assoc records ((offset, v) ∷ []) (records_of pairs) in
      elim (Bool-cases (ltb maximum (length records'))) [
        | inl p ↦ rw p (
            ap ok (
              sym (
                ap (take (suc maximum)) (sym joined)
                ∙ take-append_full (suc maximum) records' (records_of pairs) (ground arith))))
        | inr p ↦ rw p (ih records' (ground arith) ∙ ap (λ t. ok (take (suc maximum) t)) joined)
      ]
  after_line-records maximum records offset scalar pairs h l ih = ih records h
  after_line-records maximum records offset malformed pairs h l ih = ih records h
  after_line-records maximum records offset undecodable pairs h l ih = absurd l

  -- One record beyond the page is collected, if there is one.
  pub collect-records_of :
      (maximum : ℕ) (records : List (ℕ × V)) (pairs : List (ℕ × List ℕ))
      → length records ≤ maximum
      → AllLoad pairs
      → collect loads maximum records pairs ≡ ok (take (suc maximum) (records ++ records_of pairs))
  unfolding collect records_of
  collect-records_of maximum records [] h l = ap ok (
      sym (
        ap (take (suc maximum)) (append-nil records)
        ∙ take-all (suc maximum) records (omega arith)))
  collect-records_of maximum records ((offset, line) ∷ pairs) h (l, ls) =
      after_line-records maximum records offset (parse_line loads line) pairs h l
        (λ r q. collect-records_of maximum r pairs q ls)

  -- Where the record stands that a page ends with, and what is behind it.
  abbrev pub EndsAt : List (ℕ × List ℕ) → ℕ → ℕ → Type 0
  EndsAt pairs m k =
      (newer : List (ℕ × List ℕ)) × (line : List ℕ) × (older : List (ℕ × List ℕ)) × (pairs
        ≡ newer ++ (k, line) ∷ older)
      × (drop m (records_of pairs) ≡ records_of older)

  last_offset-cons :
      (offset m k : ℕ) (v : V) (rs : List (ℕ × V))
      → last_offset ((offset, v) ∷ take (suc m) rs) ≡ some k
      → ((rs ≡ []) × (offset ≡ k)) ⊎ (last_offset (take (suc m) rs) ≡ some k)
  unfolding last_offset
  last_offset-cons offset m k v [] e = inl (refl, cc)
  last_offset-cons offset m k v (r ∷ rs) e = inr e

  consider :
      (offset m k : ℕ) (text : List ℕ) (line : Loaded V) (pairs : List (ℕ × List ℕ))
      → 0 < m
      → last_offset (take m (add_record offset line (records_of pairs))) ≡ some k
      → ((n : ℕ) → 0 < n → last_offset (take n (records_of pairs)) ≡ some k → EndsAt pairs n k)
      → (newer : List (ℕ × List ℕ)) × (line' : List ℕ) × (older : List (ℕ × List ℕ)) × ((
        offset, text,
      )
            ∷ pairs
          ≡ newer ++ (k, line') ∷ older)
        × (drop m (add_record offset line (records_of pairs)) ≡ records_of older)
  unfolding last_offset
  consider offset zero k text line pairs pos e ih = absurd (omega arith)
  consider offset (suc zero) k text (object v) pairs pos e ih =
      let h : offset ≡ k = cc in ([], text, pairs, rw h refl, refl)
  consider offset (suc (suc m)) k text (object v) pairs pos e ih =
      elim (last_offset-cons offset m k v (records_of pairs) e) [
        | inl (none_left, h) ↦ ([], text, pairs, rw h refl, rw none_left refl)
        | inr f ↦
            let (a, l, b, p, q) = ih (suc m) (omega arith) f in
            ((offset, text) ∷ a, l, b, ap (λ t. (offset, text) ∷ t) p, q)
      ]
  consider offset (suc m) k text scalar pairs pos e ih =
      let (a, l, b, p, q) = ih (suc m) (omega arith) e in
      ((offset, text) ∷ a, l, b, ap (λ t. (offset, text) ∷ t) p, q)
  consider offset (suc m) k text malformed pairs pos e ih =
      let (a, l, b, p, q) = ih (suc m) (omega arith) e in
      ((offset, text) ∷ a, l, b, ap (λ t. (offset, text) ∷ t) p, q)
  consider offset (suc m) k text undecodable pairs pos e ih =
      let (a, l, b, p, q) = ih (suc m) (omega arith) e in
      ((offset, text) ∷ a, l, b, ap (λ t. (offset, text) ∷ t) p, q)

  pub page-EndsAt :
      (pairs : List (ℕ × List ℕ)) (m k : ℕ)
      → 0 < m
      → last_offset (take m (records_of pairs)) ≡ some k
      → EndsAt pairs m k
  unfolding records_of last_offset
  page-EndsAt [] (suc m) k pos e = cc
  page-EndsAt [] zero k pos e = cc
  page-EndsAt ((offset, text) ∷ pairs) m k pos e =
      consider offset m k text (parse_line loads text) pairs pos e
        (λ n q f. page-EndsAt pairs n k q f)
