-- ===== src/Web/Model/Message/Sending.antt =====
-- What `MessageCodeSend` and `MessageCodeVertified` do, as one step: the calls that they make, and
-- the code that they return.
use koko.Base.{
  ◌↔◌, text_eq, ℕ, ◌≡◌, refl, ◌∷◌, Bool, true, false, arith, ◌==◌, ◌&&◌, not, if◌then◌else◌,
}
use koko.Go.Text.{Text, bytes}
use koko.Go.Fmt.{sprintf_06v}
use koko.Web.Errmsg.{success, error, aliyun_message_error_send}
use koko.Web.World.{MessageObj, Event, History, Services, App, ok}
use koko.Web.Model.Message.{
  Sent, sms_request, sent_of, no_client, message_obj, message_code_send, message_code_vertified,
}

module _ (S : Services) (w : App) (code phone : Text) where
  open w.settings use {region_id, access_key_id, access_key_secret}

  abbrev pub client_calls : History
  client_calls = Event.new_client region_id access_key_id access_key_secret ∷ w.calls

  abbrev pub sms_calls : History
  sms_calls =
      if S.client_fails w.calls
      then client_calls
      else Event.send_sms (sms_request w.settings code phone) ∷ client_calls

  abbrev pub answer : Sent
  answer =
      if S.client_fails w.calls
      then no_client
      else sent_of (S.sms client_calls (sms_request w.settings code phone))

  abbrev pub kept : MessageObj
  kept = message_obj answer phone

  abbrev pub send_status : ℕ
  send_status =
      if S.message_fails sms_calls kept
      then aliyun_message_error_send
      else if answer.status == success
      then success
      else error

  -- Whatever the SMS service answers, one row with the answer is created, and nothing else changes.
  pub message_code_send_lem :
      message_code_send S code phone w
      ≡ (ok send_status, record w { calls = Event.create_message kept ∷ sms_calls })
  unfolding message_code_send
  message_code_send_lem = ground arith

  -- The message went out: the client was made, the service reported no error, and it said "OK".
  abbrev pub went_out : Bool
  went_out =
      not (S.client_fails w.calls)
      && not (S.sms client_calls (sms_request w.settings code phone)).1
      && text_eq (S.sms client_calls (sms_request w.settings code phone)).0.code (bytes "OK")

  -- `MessageCodeSend` answers SUCCESS exactly when the message went out and its row was created;
  -- whatever it answers, it asked for one row, with what the SMS service said.
  pub message_code_send_iff :
      (((message_code_send S code phone w).0 ≡ ok success)
        ↔ ((went_out ≡ true) × (S.message_fails sms_calls kept ≡ false)))
      × ((message_code_send S code phone w).1.calls ≡ Event.create_message kept ∷ sms_calls)
  message_code_send_iff = ground (arith, message_code_send_lem)

pub message_code_vertified_lem :
    (S : Services) (w : App)
    → message_code_vertified S w ≡ (
      ok (sprintf_06v (S.intn w.calls 1000000)),
      record w { calls = Event.rand_intn 1000000 ∷ w.calls },
    )
unfolding message_code_vertified
message_code_vertified_lem S w = refl
