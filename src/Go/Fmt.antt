-- ===== src/Go/Fmt.antt =====
-- `fmt.Sprintf("%06v", n)` of an `int` that is not negative: decimal, padded with zeros to six.
pub mod RoundTrip
use koko.Base.{ℕ, zero, suc, ◌+◌, ◌-◌, ◌/◌, ◌%◌, ◌≡◌, refl, [], ◌∷◌, ltb, if◌then◌else◌, length}
use koko.Go.Text.{Text, bytes}

-- The decimal digits of `n` in front of `out`; an `int` has at most 19, and the fuel is 20.
decimal : ℕ → ℕ → Text → Text
decimal zero n out = out
decimal (suc fuel) n out =
    let rest = decimal fuel (n / 10) ((b'0' + n % 10) ∷ out) in
    if ltb n 10 then (b'0' + n) ∷ out else rest

pad : ℕ → Text → Text
pad zero s = s
pad (suc k) s = b'0' ∷ pad k s

unfoldable pub sprintf_06v : ℕ → Text
unfolding decimal pad
sprintf_06v n = let s = decimal 20 n [] in pad (6 - length s) s

sprintf_small : sprintf_06v 42 ≡ bytes "000042"
unfolding sprintf_06v
sprintf_small = refl

sprintf_large : sprintf_06v 1234567890 ≡ bytes "1234567890"
unfolding sprintf_06v
sprintf_large = refl
