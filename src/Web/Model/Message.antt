-- ===== src/Web/Model/Message.antt =====
-- go-web/model/Message.go, ReturnMessage.go and ChangePass.go: making a verification code,
-- sending it as a text message, and keeping what the SMS service answered.
pub mod Sending
pub mod Codes
use koko.Base.{false, true, ℕ, ◌++◌, Option, some, none, Bool, not, ◌==◌, text_eq, if◌then◌else◌}
use koko.Go.Text.{Text, bytes}
use koko.Go.Fmt.{sprintf_06v}
use koko.Web.Errmsg.{success, error, aliyun_message_error_send, business_limit_control}
use koko.Web.World.{
  MessageObj, SmsRequest, SmsResponse, Event, Services, Settings, M, pure, ◌>>=◌, gets, call,
}

-- The five results of `AliMessageSend`.
pub record Sent : Type 0 where
  pub status : ℕ
  pub request_id : Text
  pub message : Text
  pub biz_id : Text
  pub code : Text

-- "{\"code\":\"" + Code + "\"}"
unfoldable pub template_param : Text → Text
template_param code = bytes "{\"code\":\"" ++ (code ++ bytes "\"}")

unfoldable pub sms_request : Settings → Text → Text → SmsRequest
unfolding template_param
sms_request s code telephone_number = record {
  scheme = bytes "http";
  phone_numbers = telephone_number;
  domain = bytes "dysmsapi.aliyuncs.com";
  sign_name = s.sign_name;
  template_code = s.template_code;
  template_param = template_param code;
}

abbrev sent : ℕ → SmsResponse → Sent
sent status r = record {
  status = status;
  request_id = r.request_id;
  message = r.message;
  biz_id = r.biz_id;
  code = r.code;
}

-- What is made of the response, after the call of `SendSms`.
abbrev pub sent_of : SmsResponse × Bool → Sent
sent_of (response, err1) =
    if err1
    then sent aliyun_message_error_send response
    else if not (text_eq response.code (bytes "OK"))
    then sent business_limit_control response
    else sent success response

abbrev pub no_client : Sent
no_client = record {
  status = aliyun_message_error_send;
  request_id = bytes "s";
  message = bytes "h";
  biz_id = bytes "i";
  code = bytes "b";
}

abbrev pub message_obj : Sent → Text → MessageObj
message_obj s phone = record {
  request_id = s.request_id;
  message = s.message;
  biz_id = s.biz_id;
  code = s.code;
  phone = phone;
}

abbrev is_nil : Option ℕ → Bool
is_nil none = true
is_nil (some _) = false

module _ (S : Services) where
  unfoldable pub ali_message_send : Text → Text → M Sent
  unfolding sms_request
  ali_message_send code telephone_number = do
    s ← gets (λ w. w.settings)
    err ←
        call (Event.new_client s.region_id s.access_key_id s.access_key_secret)
          (λ h. S.client_fails h)
    let request = sms_request s code telephone_number
    if err
        then pure no_client
        else (do r ← call (Event.send_sms request) (λ h. S.sms h request); pure (sent_of r))

  -- nil is `none`
  unfoldable pub message_object_save : MessageObj → M (Option ℕ)
  message_object_save mess = do
    err ← call (Event.create_message mess) (λ h. S.message_fails h mess)
    pure (if err then some aliyun_message_error_send else none)

  unfoldable pub message_code_vertified : M Text
  message_code_vertified = do
    n ← call (Event.rand_intn 1000000) (λ h. S.intn h 1000000)
    pure (sprintf_06v n)

  -- Both branches of the code save the answer; they differ in the code returned.
  unfoldable pub message_code_send : Text → Text → M ℕ
  unfolding ali_message_send message_object_save
  message_code_send code telephone_number = do
    a ← ali_message_send code telephone_number
    if not (a.status == success)
        then (do
          x ← message_object_save (message_obj a telephone_number)
          pure (if not (is_nil x) then aliyun_message_error_send else error))
        else (do
          x ← message_object_save (message_obj a telephone_number)
          pure (if not (is_nil x) then aliyun_message_error_send else a.status))

  unfoldable pub get_user_telephone_number : Text → M Text
  get_user_telephone_number user = call (Event.find_phone user) (λ h. S.phone_of h user)
