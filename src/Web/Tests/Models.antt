-- ===== src/Web/Tests/Models.antt =====
-- go-web's codes, settings and model functions at concrete inputs.
use koko.Base.{true, false, ◌↔◌, ◌∷◌, ◌≡◌, pos, arith, length, All}
use koko.Go.Text.{Text, bytes}
use koko.Go.Strconv.{atoi}
use koko.Go.Fmt.RoundTrip.{IsDigit}
use koko.Web.Errmsg.{success}
use koko.Web.World.{Event, ok}
use koko.Web.Model.Message.Sending.{went_out, sms_calls, kept, message_code_send_iff}
use koko.Web.Model.Message.{message_code_send, message_code_vertified}
use koko.Web.Model.Message.Codes.{message_code_vertified-digits}
use koko.Web.Tests.Fixtures.{services, warm}

message_code_vertified-digits_example :
    (code : Text) × ((message_code_vertified services warm).0 ≡ ok code)
    × (length code ≡ 6)
    × All IsDigit code
    × (atoi code ≡ pos (services.intn warm.calls 1000000))
message_code_vertified-digits_example = message_code_vertified-digits services warm (omega arith)

-- A user's code is sent: the service says what the fixture makes it say.
message_code_send_iff_example :
    (((message_code_send services (bytes "000042") (bytes "13500000000") warm).0 ≡ ok success) ↔ (
      (went_out services warm (bytes "000042") (bytes "13500000000") ≡ true)
      × (services.message_fails
            (sms_calls services warm (bytes "000042") (bytes "13500000000"))
            (kept services warm (bytes "000042") (bytes "13500000000"))
          ≡ false)))
    × ((message_code_send services (bytes "000042") (bytes "13500000000") warm).1.calls
        ≡ Event.create_message (kept services warm (bytes "000042") (bytes "13500000000"))
          ∷ sms_calls services warm (bytes "000042") (bytes "13500000000"))
message_code_send_iff_example =
    message_code_send_iff services warm (bytes "000042") (bytes "13500000000")
