-- ===== src/Go/Strconv.antt =====
-- `strconv.Atoi` on a 64-bit platform: a sign, then decimal digits. The program drops the error,
-- so what matters is the value beside it: 0 for a syntax error, the nearest bound out of range.
use koko.Base.{
  ℕ, zero, suc, ◌+◌, ◌-◌, ◌*◌, ◌^◌, ◌≡◌, refl, [], ◌∷◌, ℤ, pos, negsuc, Bool, true, false, ◌||◌,
  ltb, leb, ◌==◌, if◌then◌else◌,
}
use koko.Go.Text.{Text, bytes}

pub data Parsed : Type 0 where
  syntax : Parsed
  range : Parsed
  value : ℕ → Parsed

abbrev pub max_uint64 : ℕ
max_uint64 = 2 ^ 64 - 1

-- The loop of `ParseUint` in base 10, from left to right: it stops at the first byte that is no
-- digit, or at the first digit that leads out of uint64, whichever comes first.
unfoldable pub parse_uint : Text → ℕ → Parsed
parse_uint [] n = value n
parse_uint (c ∷ s) n =
    let rest = parse_uint s (n * 10 + (c - b'0')) in
    if ltb c b'0' || ltb b'9' c
    then syntax
    else if ltb max_uint64 (n * 10 + (c - b'0'))
    then range
    else rest

-- `ParseInt`'s use of the sign, and its clamping.
abbrev signed : Bool → Parsed → ℤ
signed negative syntax = pos 0
signed false range = pos (2 ^ 63 - 1)
signed true range = negsuc (2 ^ 63 - 1)
signed false (value n) = if leb (2 ^ 63) n then pos (2 ^ 63 - 1) else pos n
signed true (value zero) = pos 0
signed true (value (suc n)) = if ltb (2 ^ 63) (suc n) then negsuc (2 ^ 63 - 1) else negsuc n

-- No digit at all is a syntax error.
abbrev parse_digits : Text → Parsed
unfolding parse_uint
parse_digits [] = syntax
parse_digits (c ∷ s) = parse_uint (c ∷ s) 0

unfoldable pub atoi : Text → ℤ
unfolding parse_digits
atoi [] = pos 0
atoi (c ∷ s) =
    if c == b'-'
    then signed true (parse_digits s)
    else if c == b'+'
    then signed false (parse_digits s)
    else signed false (parse_digits (c ∷ s))

atoi_plain : atoi (bytes "123456") ≡ pos 123456
unfolding atoi
atoi_plain = refl

atoi_signed : atoi (bytes "-17") ≡ negsuc 16
unfolding atoi
atoi_signed = refl

atoi_name : atoi (bytes "lisi") ≡ pos 0
unfolding atoi
atoi_name = refl

atoi_clamped : atoi (bytes "9223372036854775808") ≡ pos 9223372036854775807
unfolding atoi
atoi_clamped = refl

atoi_range_first : atoi (bytes "99999999999999999999x") ≡ pos 9223372036854775807
unfolding atoi
atoi_range_first = refl
