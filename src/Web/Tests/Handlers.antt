-- ===== src/Web/Tests/Handlers.antt =====
-- go-web's handlers at concrete inputs.
use koko.Base.{◌⊎◌, ℕ, ◌+◌, ◌≡◌, refl, List, [], ◌∷◌, inr, pos, arith}
use koko.Go.Text.{Text, bytes}
use koko.Go.Fmt.{sprintf_06v}
use koko.Web.Errmsg.{success, error, redis_error_save, err_token_wrong}
use koko.Web.World.{auth, User, no_user, MessageObj, set, Event, Response, ok, panic}
use koko.Web.Setting.{no_settings}
use koko.Web.Model.Redis.{message_code_save}
use koko.Web.Model.Redis.Calls.{BulkReplies}
use koko.Web.Model.Message.{sms_request, message_code_send}
use koko.Web.Model.Message.Sending.{send_status}
use koko.Web.Model.User.{page_offset}
use koko.Web.Api.{
  Body, bind_user, user_add, user_query, user_edit, user_del, reset_password, information_commit,
}
use koko.Web.Api.Registration.{
  response, checked, drawn, drawn_code, stored, message_calls, added_status, answered, enrolled,
  user_add_lem, user_add_lem_no_pool,
}
use koko.Web.Api.Outcomes.{user_add_two_answers, user_add_stale}
use koko.Web.Api.Passwords.{
  reset_password_answers, reset_password_same_code, reset_stored, reset_saved,
  information_commit_rejects,
}
use koko.Web.Api.Users.{page_offset_tiles}
use koko.Web.Tests.Fixtures.{services, cold, pool, warm, lisi, used, no_phone}

abbrev statuses : List Response → List ℕ
statuses [] = []
statuses (r ∷ rs) = r.status ∷ statuses rs

two_answers : statuses (user_add services lisi warm).1.written ≡ 200 ∷ 200 ∷ []
unfolding user_add koko.Web.Model.User.check_user koko.Web.Api.enroll koko.Web.Api.send_and_add
    message_code_save message_code_send koko.Web.Model.Message.message_code_vertified sprintf_06v
    koko.Web.Model.User.add_user
two_answers = refl

user_add_lem_example :
    user_add services lisi warm
    ≡ (ok tt, answered success (enrolled services (checked services lisi warm) pool))
user_add_lem_example = user_add_lem services lisi warm {p = pool} refl

user_add_lem_no_pool_example :
    user_add services lisi cold ≡ (panic, drawn services (checked services lisi cold))
user_add_lem_no_pool_example = user_add_lem_no_pool services lisi cold refl

user_add_two_answers_example :
    let v = stored services (checked services lisi warm) pool in
    let code = drawn_code services (checked services lisi warm) in
    let phone = (bind_user lisi no_user).phone in
    let u : User = record (bind_user lisi no_user) { id = 7 } in
    ((user_add services lisi warm).1.written
      ≡ response success u ∷ response (added_status services v code phone) u ∷ [])
    × ((user_add services lisi warm).1.calls
        ≡ Event.create_user (bind_user lisi no_user) ∷ message_calls services v code phone)
    × ((user_add services lisi warm).1.global_user ≡ u)
user_add_two_answers_example =
    user_add_two_answers services lisi warm {p = pool} refl refl refl refl

user_add_stale_example :
    (u : User) × (m : Event) × (older : List Event) × ((user_add services no_phone used).1.calls
      ≡ Event.create_user u
        ∷ m
        ∷ Event.send_sms
            (koko.Web.Model.Message.sms_request no_settings (sprintf_06v 42) (bytes "13700000000"))
        ∷ older)
    × (u.id ≡ 7)
user_add_stale_example =
    user_add_stale services no_phone used {p = pool} refl refl refl refl refl refl refl

reset_password_answers_example :
    ((reset_password services (bytes "lisi") cold).0 ≡ ok tt)
    × ((reset_password services (bytes "lisi") cold).1.global_user ≡ no_user)
    × ((r : Response) × ((reset_password services (bytes "lisi") cold).1.written ≡ r ∷ [])
        × (((r.status ≡ success)
              × (reset_saved services (bytes "lisi") cold ≡ success)
              × (send_status services
                    (reset_stored services (bytes "lisi") cold)
                    (sprintf_06v 42)
                    (bytes "13900000000")
                  ≡ success))
            ⊎ (r.status ≡ redis_error_save)
            ⊎ (r.status ≡ error)))
reset_password_answers_example = reset_password_answers services (bytes "lisi") cold

reset_password_same_code_example :
    (m : MessageObj) × (client : Event) × (password : Text) × ((reset_password services
        (bytes "lisi")
        cold).1.calls
      ≡ Event.create_message m
        ∷ Event.send_sms (sms_request no_settings (sprintf_06v 42) (bytes "13900000000"))
        ∷ client
        ∷ Event.redis_do (set (bytes "lisi") (sprintf_06v 42) 120)
        ∷ Event.redis_do (auth password)
        ∷ Event.rand_intn 1000000
        ∷ Event.find_phone (bytes "lisi")
        ∷ [])
reset_password_same_code_example = reset_password_same_code services (bytes "lisi") cold refl refl

services-BulkReplies : BulkReplies services
services-BulkReplies h k = inr (bytes "000042", refl)

-- The right code is sent, and refused.
information_commit_rejects_example :
    (r : Response) × ((information_commit services (bytes "000042") (bytes "lisi") warm).1.written
      ≡ r ∷ [])
    × (r.status ≡ err_token_wrong)
information_commit_rejects_example =
    information_commit_rejects services (bytes "000042") (bytes "lisi") warm {p = pool}
      services-BulkReplies refl

page_offset_tiles_example :
    (page_offset (pos 20) (pos 1) ≡ pos 0)
    × ((first : ℕ) × (page_offset (pos 20) (pos 3) ≡ pos first)
        × (page_offset (pos 20) (pos 4) ≡ pos (first + 20)))
page_offset_tiles_example = page_offset_tiles 20 2 (omega arith) (omega arith)
