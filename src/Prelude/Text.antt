-- ===== src/Prelude/Text.antt =====
-- Rust's `str`: a list of Unicode scalar values, with `trim`, `len` (in UTF-8 bytes) and tests.
use Prim.Native.Nat.{ℕ, ◌+◌}
use Prim.Native.Char.{code}
use Prim.Native.String.{String}
use mathlib.Core.Path.{◌≡◌, refl}
use mathlib.Core.Bool.{Bool, ◌&&◌, ◌||◌}
use mathlib.Core.List.{List, [], ◌∷◌}
use clew.Prelude.Tests.{ltb, leb, ◌==◌, if◌then◌else◌}
use clew.Prelude.Lists.{any}

abbrev pub Str : Type 0
Str = List ℕ

-- The scalar values of a literal.
abbrev pub str : String → Str
str String.[] = []
str (String.◌∷◌ c s) = code c ∷ str s

-- `char::is_whitespace`: the Unicode property White_Space.
unfoldable pub is_whitespace : ℕ → Bool
is_whitespace c =
    (leb 9 c && leb c 13)
    || c == 32
    || c == 0x85
    || c == 0xa0
    || c == 0x1680
    || (leb 0x2000 c && leb c 0x200a)
    || c == 0x2028
    || c == 0x2029
    || c == 0x202f
    || c == 0x205f
    || c == 0x3000

-- `char::len_utf8`
unfoldable pub len_utf8 : ℕ → ℕ
len_utf8 c = if ltb c 0x80 then 1 else if ltb c 0x800 then 2 else if ltb c 0x10000 then 3 else 4

-- `str::len`
unfoldable pub byte_len : Str → ℕ
unfolding len_utf8
byte_len [] = 0
byte_len (c ∷ s) = len_utf8 c + byte_len s

unfoldable pub trim_start : Str → Str
unfolding is_whitespace
trim_start [] = []
trim_start (c ∷ s) = let rest = trim_start s in if is_whitespace c then rest else c ∷ s

abbrev end_cons : ℕ → Str → Str
end_cons c [] = if is_whitespace c then [] else c ∷ []
end_cons c (d ∷ s) = c ∷ d ∷ s

unfoldable pub trim_end : Str → Str
unfolding is_whitespace
trim_end [] = []
trim_end (c ∷ s) = end_cons c (trim_end s)

unfoldable pub trim : Str → Str
unfolding trim_start trim_end
trim s = trim_end (trim_start s)

abbrev pub contains_char : ℕ → Str → Bool
contains_char c = any (λ d. d == c)

trim_runs : trim (str "  a b ") ≡ str "a b"
unfolding trim
trim_runs = refl
