-- ===== src/Web/Model/Message/Codes.antt =====
-- The codes that `MessageCodeVertified` makes.
use koko.Base.{◌<◌, ◌≡◌, refl, pos, length, All}
use koko.Go.Text.{Text}
use koko.Go.Strconv.{atoi}
use koko.Go.Fmt.RoundTrip.{IsDigit, sprintf_06v-digits, atoi-sprintf_06v}
use koko.Web.World.{Services, App, ok}
use koko.Web.Model.Message.{message_code_vertified}

-- Where `rand.Intn(1000000)` is below a million, as documented, the code has exactly six decimal
-- digits, leading zeros included, and `Atoi` reads the number back from it: no two numbers share a
-- code.
pub message_code_vertified-digits :
    (S : Services) (w : App)
    → S.intn w.calls 1000000 < 1000000
    → (code : Text) × ((message_code_vertified S w).0 ≡ ok code)
      × (length code ≡ 6)
      × All IsDigit code
      × (atoi code ≡ pos (S.intn w.calls 1000000))
unfolding message_code_vertified
message_code_vertified-digits S w below =
    let (six, digits) = sprintf_06v-digits _ below in
    (_, refl, six, digits, atoi-sprintf_06v _ below)
