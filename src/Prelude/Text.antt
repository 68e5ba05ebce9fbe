-- ===== src/Prelude/Text.antt =====
-- Python's `str.strip`, as far as it tells a blank text.
use Prim.Native.Char.{code}
use Prim.Native.String.{String}
use Prim.Native.Nat.{ℕ}
use mathlib.Core.Bool.{Bool, true, false, ◌&&◌, ◌||◌}
use yanzl.Prelude.Tests.{leb, ltb, nat_eq}

-- The code points that `str.isspace` accepts.
abbrev pub is_space : ℕ → Bool
is_space c =
    (leb 9 c && leb c 13)
    || (leb 28 c && leb c 32)
    || nat_eq c 133
    || nat_eq c 160
    || nat_eq c 5760
    || (leb 8192 c && leb c 8202)
    || nat_eq c 8232
    || nat_eq c 8233
    || nat_eq c 8239
    || nat_eq c 8287
    || nat_eq c 12288

-- `value.strip() == ""`
unfoldable pub is_blank : String → Bool
is_blank String.[] = true
is_blank (String.◌∷◌ c s) = is_space (code c) && is_blank s

-- `not value`
abbrev pub is_empty : String → Bool
is_empty String.[] = true
is_empty (String.◌∷◌ c s) = false

-- `<=` on texts, by code points.
unfoldable pub text_leb : String → String → Bool
text_leb String.[] b = true
text_leb (String.◌∷◌ x a) String.[] = false
text_leb (String.◌∷◌ x a) (String.◌∷◌ y b) =
    ltb (code x) (code y) || (nat_eq (code x) (code y) && text_leb a b)
