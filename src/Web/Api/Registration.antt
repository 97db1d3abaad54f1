-- ===== src/Web/Api/Registration.antt =====
-- `UserAdd`, branch by branch: its calls, its answers, and the user that it leaves behind.
use koko.Base.{ℕ, ◌≡◌, ◌∷◌, some, none, arith, ltb, ◌==◌, if◌then◌else◌}
use koko.Go.Text.{Text}
use koko.Go.Fmt.{sprintf_06v}
use koko.Web.Errmsg.{success, error, user_exist, get_err}
use koko.Web.World.{User, Payload, Response, Event, History, Services, Pool, App, ok, panic}
use koko.Web.Model.Redis.Calls.{
  save_calls, save_status, after, message_code_save_lem, message_code_save_no_pool,
}
use koko.Web.Model.Message.Sending.{
  sms_calls, kept, send_status, message_code_send_lem, message_code_vertified_lem,
}
use koko.Web.Model.User.{check_user, add_user}
use koko.Web.Api.{Body, bind_user, send_and_add, enroll, error_unless, user_add}

abbrev pub response : ℕ → User → Response
response status u = record { status = status; payload = Payload.user u; massage = get_err status }

module _ (S : Services) (w : App) where
  -- The state when the code has been drawn, and the code.
  abbrev pub drawn : App
  drawn = record w { calls = Event.rand_intn 1000000 ∷ w.calls }

  abbrev pub drawn_code : Text
  drawn_code = sprintf_06v (S.intn w.calls 1000000)

  -- The state when the code is stored.
  abbrev pub stored : Pool → App
  stored p = after (save_calls drawn_code w.global_user.username drawn) p drawn

  abbrev pub stored_status : ℕ
  stored_status = save_status S drawn_code w.global_user.username drawn

module _ (S : Services) (w : App) (code phone : Text) where
  -- The calls when the message has been sent and its answer kept.
  abbrev pub message_calls : History
  message_calls = Event.create_message (kept S w code phone) ∷ sms_calls S w code phone

  abbrev pub added_status : ℕ
  added_status =
      if (S.create message_calls w.global_user).1
      then error
      else error_unless (send_status S w code phone == success) success

  -- The state when the user is added and the first answer is written.
  abbrev pub added : App
  added =
      let u = (S.create message_calls w.global_user).0 in
      record w {
        global_user = u;
        calls = Event.create_user w.global_user ∷ message_calls;
        written = response added_status u ∷ w.written;
      }

  send_and_add_lem : send_and_add S success code phone w ≡ (ok tt, added)
  unfolding send_and_add add_user
  send_and_add_lem = ground (arith, message_code_send_lem S w code phone)

module _ (S : Services) (w : App) {p : Pool} (ready : w.pool ≡ some p) where
  enroll_lem : enroll S w ≡ (
    ok tt,
    if stored_status S w == success
        then added S (stored S w p) (drawn_code S w) w.global_user.phone
        else stored S w p,
  )
  unfolding enroll
  enroll_lem = ground (
    arith,
    message_code_vertified_lem S w,
    message_code_save_lem S (drawn S w) (drawn_code S w) w.global_user.username p ready,
    send_and_add_lem S (stored S w p) (drawn_code S w) w.global_user.phone,
  )

module _ (S : Services) (b : Body) (w : App) where
  -- The user that the handler works on: the last one, with the fields that the body names.
  abbrev pub bound : App
  bound = record w { global_user = bind_user b w.global_user }

  abbrev pub name : Text
  name = (bind_user b w.global_user).username

  -- The state when the name has been looked up, and the key found.
  abbrev pub checked : App
  checked = record bound { calls = Event.first_user_id name ∷ w.calls }

  abbrev pub found_id : ℕ
  found_id = S.id_of w.calls name

abbrev pub answered : ℕ → App → App
answered status w = record w { written = response status w.global_user ∷ w.written }

-- The state after the branch for a free name.
abbrev pub enrolled : Services → App → Pool → App
enrolled S w p =
    if stored_status S w == success
    then added S (stored S w p) (drawn_code S w) w.global_user.phone
    else stored S w p

module _ (S : Services) (b : Body) (w : App) where
  -- With a Redis pool, `UserAdd` in full: a body that does not decode gets no answer, a name in use
  -- is refused after its lookup, and a free name goes on to the branch that sends and adds, after
  -- which 200 is answered whatever happened there.
  pub user_add_lem :
      {p : Pool}
      → w.pool ≡ some p
      → user_add S b w ≡ (
        ok tt,
        if b.fails
            then bound S b w
            else if ltb 0 (found_id S b w)
            then answered user_exist (checked S b w)
            else answered success (enrolled S (checked S b w) p),
      )
  unfolding user_add check_user
  user_add_lem {p} ready = ground (arith, enroll_lem S (checked S b w) {p = p} ready)

  -- Before `RedisInit` has run, `UserAdd` in full: a body that does not decode gets no answer, a
  -- name in use is refused after its lookup, and a free name makes the handler panic when it asks
  -- for a connection, with nothing stored, sent, added or answered.
  pub user_add_lem_no_pool :
      w.pool ≡ none
      → user_add S b w ≡ (
          if b.fails
          then (ok tt, bound S b w)
          else if ltb 0 (found_id S b w)
          then (ok tt, answered user_exist (checked S b w))
          else (panic, drawn S (checked S b w)))
  unfolding user_add check_user enroll
  user_add_lem_no_pool cold = ground (
    arith,
    message_code_vertified_lem S (checked S b w),
    message_code_save_no_pool S (drawn S (checked S b w)) (drawn_code S (checked S b w))
        (name S b w) cold,
  )
