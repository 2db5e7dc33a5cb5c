-- ===== src/Prelude/Texts.antt =====
-- Texts as lists of code points, and what `str.strip` takes for blank.
use Prim.Native.Char.{code}
use Prim.Native.Nat.{ℕ}
use Prim.Native.String.{String}
use mathlib.Core.Bool.{Bool, ◌&&◌, ◌||◌}
use mathlib.Core.List.{List, [], ◌∷◌}
use angelus.Prelude.Tests.{leb}
use angelus.Prelude.Lists.{all}

abbrev pub codes : String → List ℕ
codes String.[] = []
codes (String.◌∷◌ c s) = code c ∷ codes s

-- The characters that `str.strip` removes.
abbrev pub is_space : ℕ → Bool
is_space c =
    leb 9 c && leb c 13
    || leb 28 c && leb c 32
    || leb 133 c && leb c 133
    || leb 160 c && leb c 160
    || leb 5760 c && leb c 5760
    || leb 8192 c && leb c 8202
    || leb 8232 c && leb c 8233
    || leb 8239 c && leb c 8239
    || leb 8287 c && leb c 8287
    || leb 12288 c && leb c 12288

-- `not text.strip()`
abbrev pub is_blank : String → Bool
is_blank text = all is_space (codes text)
