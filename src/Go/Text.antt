-- ===== src/Go/Text.antt =====
-- Go strings: byte sequences. `bytes` reads a literal as its UTF-8; `string_of_int` is the
-- conversion `string(n)` of an `int`, which makes one code point (U+FFFD if `n` is none).
use Prim.Native.Char.{code}
use Prim.Native.String.{String}
use koko.Base.{
  ℕ, ◌+◌, ◌/◌, ◌%◌, ◌≤◌, ◌≡◌, refl, List, [], ◌∷◌, ◌++◌, ℤ, pos, negsuc, Bool, ◌&&◌, ◌||◌, arith,
  ltb, leb, if◌then◌else◌, length,
}

abbrev pub Text : Type 0
Text = List ℕ

-- The UTF-8 of a code point.
abbrev pub encode_rune : ℕ → Text
encode_rune r =
    if ltb r 0x80
    then r ∷ []
    else if ltb r 0x800
    then (0xC0 + r / 64) ∷ (0x80 + r % 64) ∷ []
    else if ltb r 0x10000
    then (0xE0 + r / 4096) ∷ (0x80 + r / 64 % 64) ∷ (0x80 + r % 64) ∷ []
    else (0xF0 + r / 262144) ∷ (0x80 + r / 4096 % 64) ∷ (0x80 + r / 64 % 64) ∷ (0x80 + r % 64) ∷ []

abbrev pub bytes : String → Text
bytes String.[] = []
bytes (String.◌∷◌ c s) = encode_rune (code c) ++ bytes s

is_surrogate : ℕ → Bool
is_surrogate n = leb 0xD800 n && leb n 0xDFFF

abbrev pub replacement : ℕ
replacement = 0xFFFD

-- The code point that `string(n)` encodes.
unfoldable pub rune_of_int : ℤ → ℕ
unfolding is_surrogate
rune_of_int (pos n) = if is_surrogate n || ltb 0x10FFFF n then replacement else n
rune_of_int (negsuc n) = replacement

unfoldable pub string_of_int : ℤ → Text
unfolding rune_of_int
string_of_int z = encode_rune (rune_of_int z)

pub length-encode_rune : (r : ℕ) → (1 ≤ length (encode_rune r)) × (length (encode_rune r) ≤ 4)
length-encode_rune r = ground arith

pub length-string_of_int : (z : ℤ) → (1 ≤ length (string_of_int z)) × (length (string_of_int z) ≤ 4)
unfolding string_of_int
length-string_of_int z = length-encode_rune (rune_of_int z)

string_of_123456 : string_of_int (pos 123456) ≡ 0xF0 ∷ 0x9E ∷ 0x89 ∷ 0x80 ∷ []
unfolding string_of_int
string_of_123456 = refl

string_of_negative : string_of_int (negsuc 4) ≡ 0xEF ∷ 0xBF ∷ 0xBD ∷ []
unfolding string_of_int
string_of_negative = refl
