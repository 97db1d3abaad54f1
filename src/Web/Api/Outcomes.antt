-- ===== src/Web/Api/Outcomes.antt =====
-- What a client of `UserAdd` sees, and what reaches the table and the phone.
use koko.Base.{◌≡◌, ◌∷◌, some, none, false, arith}
use koko.Go.Text.{Text}
use koko.Web.Errmsg.{success}
use koko.Web.World.{User, Event, History, Services, Pool, App}
use koko.Web.Model.Message.{sms_request}
use koko.Web.Model.Message.Sending.{client_calls, kept}
use koko.Web.Api.{Body, bind_user, user_add}
use koko.Web.Api.Registration.{
  response, checked, found_id, stored, stored_status, drawn_code, added_status, message_calls,
  user_add_lem,
}

module _ (S : Services) (b : Body) (w : App) {p : Pool} (ready : w.pool ≡ some p)
    (good : b.fails ≡ false) where
  module _ (free : found_id S b w ≡ 0) where
    module _ (kept_code : stored_status S (checked S b w) ≡ success) where
      abbrev v : App
      v = stored S (checked S b w) p

      abbrev code : Text
      code = drawn_code S (checked S b w)

      -- With a Redis pool, for a body that decodes, a free name and a code that is stored: two
      -- answers are written, the second always 200, and the user is added whatever became of the
      -- message.
      pub user_add_two_answers :
          let phone = (bind_user b w.global_user).phone in
          let u = (S.create (message_calls S v code phone) (bind_user b w.global_user)).0 in
          ((user_add S b w).1.written
            ≡ response success u ∷ response (added_status S v code phone) u ∷ w.written)
          × ((user_add S b w).1.calls
              ≡ Event.create_user (bind_user b w.global_user) ∷ message_calls S v code phone)
          × ((user_add S b w).1.global_user ≡ u)
      user_add_two_answers = ground (arith, user_add_lem S b w ready)

      -- With a Redis pool, for a body that decodes, a free name, a code that is stored and an SMS
      -- client that is made: where the body has no id and no phone, a row is asked for under the
      -- last user's key, and the code goes to the last user's phone.
      pub user_add_stale :
          b.id ≡ none
          → b.phone ≡ none
          → S.client_fails v.calls ≡ false
          → (u : User) × (m : Event) × (older : History) × ((user_add S b w).1.calls
              ≡ Event.create_user u
                ∷ m
                ∷ Event.send_sms (sms_request w.settings code w.global_user.phone)
                ∷ older)
            × (u.id ≡ w.global_user.id)
      unfolding bind_user
      user_add_stale no_id no_phone client = (
        bind_user b w.global_user,
        Event.create_message (kept S v code (bind_user b w.global_user).phone),
        client_calls S v code (bind_user b w.global_user).phone,
        ground (arith, user_add_lem S b w ready),
        ground arith,
      )
