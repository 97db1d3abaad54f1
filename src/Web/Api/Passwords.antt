-- ===== src/Web/Api/Passwords.antt =====
-- `ResetPassword` and `InformationCommit`: a code goes out, and a code comes back.
use koko.Base.{
  ℕ, ◌<◌, ◌≡◌, refl, ◌∷◌, ◌⊎◌, some, none, true, false, arith, ◌==◌, if◌then◌else◌, text_eq,
  text_eq_iff, Bool-cases, inl, inr,
}
use koko.Go.Text.{Text, string_of_int}
use koko.Go.Strconv.{atoi}
use koko.Go.Fmt.{sprintf_06v}
use koko.Go.Fmt.RoundTrip.{string_of_int-ne-sprintf_06v}
use koko.Web.Errmsg.{success, error, err_token_runtime, err_token_wrong, redis_error_save, get_err}
use koko.Web.World.{
  MessageObj, set, auth, panic, Payload, Response, Reply, Event, Services, Pool, App, ok,
}
use koko.Web.Model.Redis.{poolsize, redis_init, code_differs, is_nil}
use koko.Web.Model.Redis.Calls.{
  save_calls, save_status, after, message_code_save_lem, check_calls, get_reply, check_status,
  BulkReplies, check_status_bulk, message_code_check_lem, message_code_check_no_pool,
}
use koko.Web.Model.Message.{sms_request, get_user_telephone_number}
use koko.Web.Model.Message.Sending.{
  kept, send_status, message_code_send_lem, message_code_vertified_lem,
}
use koko.Web.Model.User.{edit_user}
use koko.Web.Api.{error_unless, reset_password, information_commit}
use koko.Web.Api.Registration.{drawn, drawn_code, message_calls}

module _ (S : Services) (user : Text) (w : App) where
  abbrev pub fresh_pool : Pool
  fresh_pool = record { max_idle = poolsize; borrowed = 0 }

  -- The state when the phone has been looked up and the code drawn.
  abbrev pub looked_up : App
  looked_up = record w { pool = some fresh_pool; calls = Event.find_phone user ∷ w.calls }

  abbrev pub reset_code : Text
  reset_code = drawn_code S looked_up

  abbrev pub reset_stored : App
  reset_stored =
      after (save_calls reset_code user (drawn S looked_up)) fresh_pool (drawn S looked_up)

  abbrev pub reset_phone : Text
  reset_phone = S.phone_of w.calls user

  abbrev pub reset_saved : ℕ
  reset_saved = save_status S reset_code user (drawn S looked_up)

  abbrev pub reset_status : ℕ
  reset_status =
      if reset_saved == success
      then error_unless (send_status S reset_stored reset_code reset_phone == success) success
      else reset_saved

  -- `ResetPassword` never panics. It stores a fresh code under the name and, if that succeeds,
  -- sends the same code to the phone found for the name; it answers once, and the user's row and
  -- the package variable stay as they are.
  pub reset_password_lem : reset_password S user w ≡ (
    ok tt,
    record reset_stored {
      calls =
          if reset_saved == success
          then message_calls S reset_stored reset_code reset_phone
          else reset_stored.calls;
      written =
          record {
            status = reset_status;
            payload = Payload.string user;
            massage = get_err reset_status;
          }
          ∷ w.written;
    },
  )
  unfolding reset_password redis_init get_user_telephone_number
  reset_password_lem = ground (
    arith,
    message_code_vertified_lem S looked_up,
    message_code_save_lem S (drawn S looked_up) reset_code user fresh_pool refl,
    message_code_send_lem S reset_stored reset_code reset_phone,
  )

  -- `ResetPassword` returns whatever the services do, with or without a pool, after exactly one
  -- answer, which says 200 only if the code was stored and sent, and else 309 or 500; the package
  -- variable stays.
  pub reset_password_answers :
      ((reset_password S user w).0 ≡ ok tt)
      × ((reset_password S user w).1.global_user ≡ w.global_user)
      × ((r : Response) × ((reset_password S user w).1.written ≡ r ∷ w.written)
          × (((r.status ≡ success)
                × (reset_saved ≡ success)
                × (send_status S reset_stored reset_code reset_phone ≡ success))
              ⊎ (r.status ≡ redis_error_save)
              ⊎ (r.status ≡ error)))
  reset_password_answers = (
    ground (arith, reset_password_lem),
    ground (arith, reset_password_lem),
    (
      record {
        status = reset_status;
        payload = Payload.string user;
        massage = get_err reset_status;
      },
      ground (arith, reset_password_lem),
      ground arith,
    ),
  )

  -- `ResetPassword`, where the code can be stored and the SMS client made: the code that is sent to
  -- the phone found for the name is the code that was stored under the name, for 120 seconds.
  pub reset_password_same_code :
      reset_saved ≡ success
      → S.client_fails reset_stored.calls ≡ false
      → (m : MessageObj) × (client : Event) × (password : Text) × ((reset_password S user w).1.calls
          ≡ Event.create_message m
            ∷ Event.send_sms (sms_request w.settings reset_code reset_phone)
            ∷ client
            ∷ Event.redis_do (set user reset_code 120)
            ∷ Event.redis_do (auth password)
            ∷ Event.rand_intn 1000000
            ∷ Event.find_phone user
            ∷ w.calls)
  reset_password_same_code saved client = (
    kept S reset_stored reset_code reset_phone,
    Event.new_client w.settings.region_id w.settings.access_key_id w.settings.access_key_secret,
    w.settings.redis_passwd,
    ground (arith, reset_password_lem),
  )

module _ (S : Services) (receive_code username : Text) (w : App) where
  abbrev pub commit_name : Text
  commit_name = string_of_int (atoi username)

  abbrev pub commit_status : ℕ
  commit_status = check_status S w (string_of_int (atoi receive_code)) commit_name

  -- `InformationCommit` asks Redis for the converted name, answers the check's code with the
  -- package variable `user`, which is whoever registered last, and changes no user.
  pub information_commit_lem :
      {p : Pool}
      → w.pool ≡ some p
      → information_commit S receive_code username w ≡ (
        ok tt,
        record (after (check_calls commit_name w) p w) {
          written =
              record {
                status = commit_status;
                payload = Payload.user w.global_user;
                massage = get_err commit_status;
              }
              ∷ w.written;
        },
      )
  unfolding information_commit edit_user
  information_commit_lem {p} ready =
      ground
        (arith, message_code_check_lem S w (string_of_int (atoi receive_code)) commit_name p ready)

-- Before `RedisInit` has run it panics and changes nothing.
pub information_commit_no_pool :
    (S : Services) (receive_code username : Text) (w : App)
    → w.pool ≡ none
    → information_commit S receive_code username w ≡ (panic, w)
unfolding information_commit
information_commit_no_pool S receive_code username w cold = ground (
  arith,
  message_code_check_no_pool S w (string_of_int (atoi receive_code)) (string_of_int (atoi username))
      cold,
)

-- Whatever text is sent as the code, what is compared is not a code: `string(n)` of a number is one
-- character, and each code that `MessageCodeVertified` makes has six.
pub code_differs-received :
    (receive_code : Text) (n : ℕ)
    → n < 1000000
    → code_differs (string_of_int (atoi receive_code)) (Reply.string (sprintf_06v n)) ≡ true
code_differs-received receive_code n h =
    let z = atoi receive_code in
    elim (Bool-cases (text_eq (string_of_int z) (sprintf_06v n))) [
      | inl same ↦
          absurd (string_of_int-ne-sprintf_06v z n h ((text_eq_iff _ (sprintf_06v n)).0 same))
      | inr differ ↦ rw differ
    ]

-- With a Redis pool and redigo's replies `InformationCommit` never answers 200: a code is found
-- expired where there is none, and wrong where there is one, the right code included.
pub information_commit_rejects :
    (S : Services) (receive_code username : Text) (w : App) {p : Pool}
    → BulkReplies S
    → w.pool ≡ some p
    → (r : Response) × ((information_commit S receive_code username w).1.written ≡ r ∷ w.written)
      × (r.status ≡ (
          if is_nil (get_reply S w (commit_name S receive_code username w))
          then err_token_runtime
          else err_token_wrong))
information_commit_rejects S receive_code username w bulk ready =
    let status = commit_status S receive_code username w in
    (
      record { status = status; payload = Payload.user w.global_user; massage = get_err status },
      ground (arith, information_commit_lem S receive_code username w ready),
      check_status_bulk S w bulk (string_of_int (atoi receive_code))
          (commit_name S receive_code username w),
    )
