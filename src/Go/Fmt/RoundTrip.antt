-- ===== src/Go/Fmt/RoundTrip.antt =====
-- Six digits go in and come out: `Sprintf("%06v", n)` against `Atoi`.
use native.Mathlib.Nat.{pow-suc}
use koko.Base.{
  inr, inl, ltb, Bool-cases, ℕ, zero, suc, ◌+◌, ◌-◌, ◌/◌, ◌%◌, ◌^◌, ◌≤◌, ◌<◌, ◌≡◌, ◌≢◌, refl, ap, ℤ,
  ◌∙◌, [], ◌∷◌, pos, arith, length, All,
}
use koko.Go.Text.{Text, string_of_int, length-string_of_int}
use koko.Go.Strconv.{parse_uint, value, max_uint64, atoi}
use koko.Go.Fmt.{decimal, pad, sprintf_06v}

abbrev pub IsDigit : ℕ → Type 0
IsDigit c = (b'0' ≤ c) × (c ≤ b'9')

-- Enough fuel: below 10 ^ fuel, the digits read back as the number.
parse_uint-decimal :
    (fuel n : ℕ) (out : Text)
    → n < 10 ^ fuel
    → n ≤ max_uint64
    → parse_uint (decimal fuel n out) 0 ≡ parse_uint out n
unfolding decimal parse_uint
parse_uint-decimal zero n out h m = let e : n ≡ 0 = omega arith in rw e
parse_uint-decimal (suc fuel) n out h m =
    ground (arith, pow-suc 10 fuel, parse_uint-decimal fuel (n / 10) ((b'0' + n % 10) ∷ out))

parse_uint-pad : (k : ℕ) (s : Text) → parse_uint (pad k s) 0 ≡ parse_uint s 0
unfolding pad parse_uint
parse_uint-pad zero s = refl
parse_uint-pad (suc k) s = ground (arith, parse_uint-pad k s)

length-pad : (k : ℕ) (s : Text) → length (pad k s) ≡ k + length s
unfolding pad
length-pad zero s = omega arith
length-pad (suc k) s = omega (arith, length-pad k s)

length-decimal :
    (fuel k n : ℕ) (out : Text) → n < 10 ^ suc k → length (decimal fuel n out) ≤ suc k + length out
unfolding decimal
length-decimal zero k n out h = omega arith
length-decimal (suc fuel) zero n out h = ground arith
length-decimal (suc fuel) (suc k) n out h =
    ground (arith, pow-suc 10 (suc k), length-decimal fuel k (n / 10) ((b'0' + n % 10) ∷ out))

All-decimal : (fuel n : ℕ) (out : Text) → All IsDigit out → All IsDigit (decimal fuel n out)
unfolding decimal
All-decimal zero n out h = h
All-decimal (suc fuel) n out h = elim (Bool-cases (ltb n 10)) [
  | inl last ↦ rw last (ground arith, h)
  | inr more ↦ rw more (All-decimal fuel (n / 10) ((b'0' + n % 10) ∷ out) (omega arith, h))
]

All-pad : (k : ℕ) (s : Text) → All IsDigit s → All IsDigit (pad k s)
unfolding pad
All-pad zero s h = h
All-pad (suc k) s h = (omega arith, All-pad k s h)

-- A number below a million is written as exactly six decimal digits.
pub sprintf_06v-digits :
    (n : ℕ) → n < 1000000 → (length (sprintf_06v n) ≡ 6) × All IsDigit (sprintf_06v n)
unfolding sprintf_06v
sprintf_06v-digits n h = (
  omega (
    arith,
    length-pad (6 - length (decimal 20 n [])) (decimal 20 n []),
    length-decimal 20 5 n [] h,
  ),
  All-pad _ _ (All-decimal 20 n [] tt),
)

parse_uint-sprintf_06v : (n : ℕ) → n < 1000000 → parse_uint (sprintf_06v n) 0 ≡ value n
unfolding sprintf_06v parse_uint
parse_uint-sprintf_06v n h =
    parse_uint-pad (6 - length (decimal 20 n [])) (decimal 20 n [])
    ∙ parse_uint-decimal 20 n [] (omega arith) (omega arith)

-- Text that starts with a digit and reads as a number below 2^63 is that number to `Atoi`.
atoi-parse_uint :
    (s : Text) (n : ℕ)
    → All IsDigit s
    → s ≢ []
    → parse_uint s 0 ≡ value n
    → n < 2 ^ 63
    → atoi s ≡ pos n
unfolding atoi
atoi-parse_uint [] n d e h b = absurd (e refl)
atoi-parse_uint (c ∷ s) n d e h b = ground arith

-- `Atoi` reads the code back.
pub atoi-sprintf_06v : (n : ℕ) → n < 1000000 → atoi (sprintf_06v n) ≡ pos n
atoi-sprintf_06v n h =
    let (six, digits) = sprintf_06v-digits n h in
    atoi-parse_uint (sprintf_06v n) n digits (λ e. absurd (omega (arith, six, ap length e)))
      (parse_uint-sprintf_06v n h) (omega arith)

-- A code is six bytes, and `string(n)` at most four: no conversion gives a code.
pub string_of_int-ne-sprintf_06v : (z : ℤ) (n : ℕ) → n < 1000000 → string_of_int z ≢ sprintf_06v n
string_of_int-ne-sprintf_06v z n h e =
    omega (arith, (sprintf_06v-digits n h).0, ap length e, length-string_of_int z)
