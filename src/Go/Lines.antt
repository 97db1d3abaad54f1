-- ===== src/Go/Lines.antt =====
-- `bufio.Scanner` over a file that reads without an error, with its default split by lines, and
-- `strings.TrimSpace`.
use mathlib.Core.List.{reverse}
use koko.Base.{ℕ, ◌+◌, ◌≡◌, refl, List, [], ◌∷◌, Bool, ◌&&◌, ◌||◌, leb, ◌==◌, if◌then◌else◌}
use koko.Go.Text.{Text, bytes}

-- A line comes in reverse; one carriage return at its end goes.
abbrev drop_cr : Text → Text
drop_cr [] = []
drop_cr (c ∷ s) = if c == 13 then s else c ∷ s

-- `bufio.MaxScanTokenSize`
abbrev pub max_token : ℕ
max_token = 65536

-- The bytes left, the line so far in reverse, and its length. A buffer of `max_token` bytes with no
-- end of line ends the scan, with an error that the program does not ask for.
unfoldable pub scan_from : Text → Text → ℕ → List Text
scan_from [] line n = if n == 0 then [] else reverse (drop_cr line) ∷ []
scan_from (c ∷ s) line n =
    let more = scan_from s (c ∷ line) (n + 1) in
    let next = reverse (drop_cr line) ∷ scan_from s [] 0 in
    if c == 10 then next else if leb max_token (n + 1) then [] else more

unfoldable pub scan_lines : Text → List Text
unfolding scan_from
scan_lines s = scan_from s [] 0

-- `unicode.IsSpace`, by the UTF-8 of the character: one byte, two, or three.
abbrev space₁ : ℕ → Bool
space₁ a = (leb 9 a && leb a 13) || a == 32

abbrev space₂ : ℕ → ℕ → Bool
space₂ a b = a == 0xC2 && (b == 0x85 || b == 0xA0)

abbrev space₃ : ℕ → ℕ → ℕ → Bool
space₃ a b c =
    (a == 0xE1 && b == 0x9A && c == 0x80)
    || (a == 0xE2 && b == 0x80 && (leb 0x80 c && leb c 0x8A || c == 0xA8 || c == 0xA9 || c == 0xAF))
    || (a == 0xE2 && b == 0x81 && c == 0x9F)
    || (a == 0xE3 && b == 0x80 && c == 0x80)

unfoldable pub trim_left : Text → Text
trim_left [] = []
trim_left (a ∷ []) = if space₁ a then [] else a ∷ []
trim_left (a ∷ b ∷ []) =
    let rest = trim_left (b ∷ []) in
    if space₁ a then rest else if space₂ a b then [] else a ∷ b ∷ []
trim_left (a ∷ b ∷ c ∷ s) =
    let one = trim_left (b ∷ c ∷ s) in
    let two = trim_left (c ∷ s) in
    let three = trim_left s in
    if space₁ a
    then one
    else if space₂ a b
    then two
    else if space₃ a b c
    then three
    else a ∷ b ∷ c ∷ s

-- The same on the reverse of a text: its characters come last byte first.
unfoldable pub trim_right_reversed : Text → Text
trim_right_reversed [] = []
trim_right_reversed (a ∷ []) = if space₁ a then [] else a ∷ []
trim_right_reversed (a ∷ b ∷ []) =
    let rest = trim_right_reversed (b ∷ []) in
    if space₁ a then rest else if space₂ b a then [] else a ∷ b ∷ []
trim_right_reversed (a ∷ b ∷ c ∷ s) =
    let one = trim_right_reversed (b ∷ c ∷ s) in
    let two = trim_right_reversed (c ∷ s) in
    let three = trim_right_reversed s in
    if space₁ a
    then one
    else if space₂ b a
    then two
    else if space₃ c b a
    then three
    else a ∷ b ∷ c ∷ s

unfoldable pub trim_space : Text → Text
unfolding trim_left trim_right_reversed
trim_space s = reverse (trim_right_reversed (reverse (trim_left s)))

trim_both : trim_space (0xE3 ∷ 0x80 ∷ 0x80 ∷ 32 ∷ bytes "Lisi \t") ≡ bytes "Lisi"
unfolding trim_space
trim_both = refl

two_lines :
    scan_lines (bytes "Zhangsan       \n    Lisi") ≡ bytes "Zhangsan       " ∷ bytes "    Lisi" ∷ []
unfolding scan_lines
two_lines = refl

carriage_returns : scan_lines (bytes "a\r\n\r\n\nb\n") ≡ bytes "a" ∷ [] ∷ [] ∷ bytes "b" ∷ []
unfolding scan_lines
carriage_returns = refl
