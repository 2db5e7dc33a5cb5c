-- ===== src/Prelude/Lists.antt =====
-- Lists measured by native numbers, and lists of texts read as Python sets.
use Prim.Native.Nat.{ℕ, zero, suc, ◌+◌, ◌-◌, ◌≤◌}
use Prim.Native.String.{String}
use mathlib.Core.Path.{◌≡◌, refl}
use mathlib.Core.Bool.{Bool, true, false, ◌&&◌, ◌||◌}
use mathlib.Core.List.{List, [], ◌∷◌, ◌++◌}
use native.Mathlib.Omega.{arith}
use text.Mathlib.Text.{◌==◌}
use text.Mathlib.TextEquality.{eq_iff}
use angelus.Prelude.Tests.{if◌then◌else◌}

module _ {ℓ} {A : Type ℓ} where
  abbrev pub length : List A → ℕ
  length [] = 0
  length (_ ∷ xs) = suc (length xs)

  pub length-append : (xs ys : List A) → length (xs ++ ys) ≡ length xs + length ys
  length-append [] ys = omega arith
  length-append (x ∷ xs) ys = omega (arith, length-append xs ys)

  -- `any(p(x) for x in xs)`
  abbrev pub any : (A → Bool) → List A → Bool
  any p [] = false
  any p (x ∷ xs) = p x || any p xs

  -- `all(p(x) for x in xs)`
  abbrev pub all : (A → Bool) → List A → Bool
  all p [] = true
  all p (x ∷ xs) = p x && all p xs

  -- `[x for x in xs if p(x)]`
  abbrev pub keep : (A → Bool) → List A → List A
  keep p [] = []
  keep p (x ∷ xs) = let rest = keep p xs in if p x then x ∷ rest else rest

  pub length-keep : (p : A → Bool) (xs : List A) → length (keep p xs) ≤ length xs
  length-keep p [] = omega arith
  length-keep p (x ∷ xs) = ground (arith, length-keep p xs)

  pub all-append : (p : A → Bool) (xs ys : List A) → all p (xs ++ ys) ≡ (all p xs && all p ys)
  all-append p [] ys = refl
  all-append p (x ∷ xs) ys = ground (arith, all-append p xs ys)

-- `x in xs`
abbrev pub mem : String → List String → Bool
mem x [] = false
mem x (y ∷ ys) = y == x || mem x ys

-- `s.add(x)` on a set kept in the order of insertion.
abbrev pub set_add : String → List String → List String
set_add x xs = if mem x xs then xs else xs ++ x ∷ []

-- `dict.fromkeys(xs)` and `set(xs)`: the first occurrence of each text is kept.
abbrev pub unique_from : List String → List String → List String
unique_from seen [] = seen
unique_from seen (x ∷ xs) = unique_from (set_add x seen) xs

abbrev pub unique : List String → List String
unique xs = unique_from [] xs

-- No text stands twice.
abbrev pub IsUnique : List String → Type 0
IsUnique [] = Unit
IsUnique (x ∷ xs) = (mem x xs ≡ false) × IsUnique xs

pub mem-append : (x : String) (xs ys : List String) → mem x (xs ++ ys) ≡ (mem x xs || mem x ys)
mem-append x [] ys = refl
mem-append x (y ∷ xs) ys = ground (arith, mem-append x xs ys)

pub mem-set_add : (x y : String) (xs : List String) → mem x (set_add y xs) ≡ (y == x || mem x xs)
mem-set_add x y xs = ground (arith, mem-append x xs (y ∷ []), eq_iff y x)

pub append_one-IsUnique :
    (x : String) (xs : List String) → mem x xs ≡ false → IsUnique xs → IsUnique (xs ++ x ∷ [])
append_one-IsUnique x [] h u = (refl, tt)
append_one-IsUnique x (y ∷ xs) h u =
    ground (arith, append_one-IsUnique x xs, mem-append y xs (x ∷ []), eq_iff y x, eq_iff x y)

pub set_add-IsUnique : (x : String) (xs : List String) → IsUnique xs → IsUnique (set_add x xs)
set_add-IsUnique x xs u = ground (arith, append_one-IsUnique x xs)

pub unique_from-IsUnique : (seen xs : List String) → IsUnique seen → IsUnique (unique_from seen xs)
unique_from-IsUnique seen [] u = u
unique_from-IsUnique seen (x ∷ xs) u =
    unique_from-IsUnique (set_add x seen) xs (set_add-IsUnique x seen u)

pub mem-unique_from :
    (y : String) (seen xs : List String) → mem y (unique_from seen xs) ≡ (mem y seen || mem y xs)
mem-unique_from y seen [] = ground arith
mem-unique_from y seen (x ∷ xs) =
    ground (arith, mem-unique_from y (set_add x seen) xs, mem-set_add y x seen)

module _ {ℓ} {A : Type ℓ} where
  abbrev pub take : ℕ → List A → List A
  take zero xs = []
  take (suc n) [] = []
  take (suc n) (x ∷ xs) = x ∷ take n xs

  abbrev pub drop : ℕ → List A → List A
  drop zero xs = xs
  drop (suc n) [] = []
  drop (suc n) (x ∷ xs) = drop n xs

  pub length-drop : (n : ℕ) (xs : List A) → length (drop n xs) ≡ length xs - n
  length-drop zero xs = omega arith
  length-drop (suc n) [] = omega arith
  length-drop (suc n) (x ∷ xs) = omega (arith, length-drop n xs)
