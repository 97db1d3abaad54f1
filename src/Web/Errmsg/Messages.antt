-- ===== src/Web/Errmsg/Messages.antt =====
-- The table of messages is complete: each declared code has one, and no other code has.
use koko.Base.{ℕ, List, [], ◌∷◌, ◌≡◌, ◌≢◌, Bool, true, false, ◌||◌, ◌↔◌, ◌==◌, arith}
use koko.Web.Errmsg.{declared_codes, get_err}

abbrev pub is_declared : List ℕ → ℕ → Bool
is_declared [] c = false
is_declared (d ∷ ds) c = (d == c) || is_declared ds c

-- A code has a message, which is not empty, exactly when it is one of the package's constants.
pub get_err-declared : (c : ℕ) → (get_err c ≢ []) ↔ (is_declared declared_codes c ≡ true)
unfolding get_err
get_err-declared c = ground arith
