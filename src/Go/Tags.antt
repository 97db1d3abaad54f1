-- ===== src/Go/Tags.antt =====
-- `reflect.StructTag.Lookup`: the value that the tag of a struct's field has for a key. A value with
-- a backslash, which no tag of the program has, is taken for none.
use koko.Base.{
  ℕ, [], ◌∷◌, ◌++◌, Option, none, some, Bool, ◌==◌, ◌&&◌, not, ltb, text_eq, if◌then◌else◌,
}
use koko.Go.Text.{Text}

-- Between two pairs, in a name, behind the colon after it, and in the quoted value.
pub data Scan : Type 0 where
  between : Scan
  in_name : Text → Scan
  at_colon : Text → Scan
  in_value : Text → Text → Scan

-- A byte of a name: above a space, and not a colon, a quote or DEL.
abbrev pub is_name_byte : ℕ → Bool
is_name_byte c = ltb 32 c && not (c == 58) && not (c == 34) && not (c == 127)

-- One byte: the scan goes on, or the lookup ends with a value or without one.
pub data Next : Type 0 where
  goes_on : Scan → Next
  ends : Option Text → Next

unfoldable pub next : Text → Scan → ℕ → Next
next key between c =
    if c == 32
    then goes_on between
    else if is_name_byte c
    then goes_on (in_name (c ∷ []))
    else ends none
next key (in_name n) c =
    if c == 58
    then goes_on (at_colon n)
    else if is_name_byte c
    then goes_on (in_name (n ++ (c ∷ [])))
    else ends none
next key (at_colon n) c = if c == 34 then goes_on (in_value n []) else ends none
next key (in_value n v) c =
    if c == 34
    then (if text_eq key n then ends (some v) else goes_on between)
    else if c == 92
    then ends none
    else goes_on (in_value n (v ++ (c ∷ [])))

unfoldable pub lookup_from : Text → Scan → Text → Option Text
unfolding next
lookup_from key s [] = none
lookup_from key s (c ∷ tag) = elim (next key s c) [ goes_on t ↦ lookup_from key t tag | ends r ↦ r ]

unfoldable pub lookup : Text → Text → Option Text
unfolding lookup_from
lookup key tag = lookup_from key between tag
