-- ===== src/Web/Api.antt =====
-- go-web/api/v1 (user.go, change_pass.go): the handlers. Their queries come as texts (`c.Query`
-- gives "" for a missing one), the body of `UserAdd` as what the JSON decoder stores.
pub mod Registration
pub mod Outcomes
pub mod Users
pub mod Passwords
pub mod Articles
use koko.Base.{zero, ℕ, ℤ, pos, negsuc, ◌∷◌, Option, none, some, Bool, ◌==◌, if◌then◌else◌}
use koko.Go.Text.{Text, string_of_int}
use koko.Go.Strconv.{atoi}
use koko.Web.Errmsg.{success, error, err_token_runtime, err_token_wrong, get_err}
use koko.Web.World.{
  Result, User, Payload, Response, Services, M, ⊤, pure, ◌>>=◌, ◌>>◌, gets, modify, when,
}
use koko.Web.Model.Redis.{redis_init, message_code_save, message_code_check}
use koko.Web.Model.Message.{message_code_vertified, message_code_send, get_user_telephone_number}
use koko.Web.Model.User.{check_user, add_user, get_users, edit_user, del_user}

-- What the decoder of `ShouldBindJSON` stores into the struct before it ends, and whether it
-- reports an error. A field that the body does not name is not stored.
pub record Body : Type 0 where
  pub id : Option ℕ
  pub username : Option Text
  pub password : Option Text
  pub address : Option Text
  pub phone : Option Text
  pub fails : Bool

abbrev store {ℓ} : {A : Type ℓ} → Option A → A → A
store none old = old
store (some new) old = new

-- The struct after the decoder: it was not cleared before.
unfoldable pub bind_user : Body → User → User
bind_user b u = record {
  id = store b.id u.id;
  username = store b.username u.username;
  password = store b.password u.password;
  address = store b.address u.address;
  phone = store b.phone u.phone;
}

unfoldable pub should_bind_json : Body → M Bool
unfolding bind_user
should_bind_json b w = (Result.ok b.fails, record w { global_user = bind_user b w.global_user })

-- `c.JSON(http.StatusOK, gin.H{"status": …, "data": …, "massage": errmsg.GetErr(…)})`
unfoldable pub c_json : ℕ → Payload → M ⊤
c_json status payload w =
    let r : Response = record { status = status; payload = payload; massage = get_err status } in
    (Result.ok tt, record w { written = r ∷ w.written })

abbrev pub error_unless : Bool → ℕ → ℕ
error_unless done x = if done then x else error

-- 0 stands for a missing page size and a missing page.
abbrev pub minus_one_for_zero : ℤ → ℤ
minus_one_for_zero (pos zero) = negsuc 0
minus_one_for_zero z = z

module _ (S : Services) where
  -- `UserAdd` from the point where the code is stored: send it, add the user, answer.
  unfoldable pub send_and_add : ℕ → Text → Text → M ⊤
  unfolding c_json
  send_and_add x code telephone_number = do
    a ← message_code_send S code telephone_number
    u ← gets (λ w. w.global_user)
    (u', b) ← add_user S u
    modify (λ w. record w { global_user = u' })
    let status = error_unless (b == success) (error_unless (a == success) x)
    c_json status (Payload.user u')

  -- The branch of `UserAdd` for a name that is free.
  unfoldable pub enroll : M ⊤
  enroll = do
    u ← gets (λ w. w.global_user)
    code ← message_code_vertified S
    x ← message_code_save S code u.username
    when (x == success) (send_and_add x code u.phone)

  unfoldable pub user_add : Body → M ⊤
  unfolding should_bind_json c_json
  user_add b = do
    err ← should_bind_json b
    if err then pure tt else (do
      u ← gets (λ w. w.global_user)
      return_code ← check_user S u.username
      when (return_code == success) enroll
      u' ← gets (λ w. w.global_user)
      c_json return_code (Payload.user u'))

  unfoldable pub user_query : Text → Text → M ⊤
  unfolding c_json
  user_query pagesize pagenum = do
    users ← get_users S (minus_one_for_zero (atoi pagesize)) (minus_one_for_zero (atoi pagenum))
    c_json success (Payload.users users)

  unfoldable pub user_edit : Text → M ⊤
  unfolding c_json
  user_edit username = do
    let user = atoi username
    code ← check_user S (string_of_int user)
    code' ← if code == success then edit_user (string_of_int user) else pure code
    c_json code' (Payload.int user)

  unfoldable pub user_del : Text → M ⊤
  unfolding c_json
  user_del username = do
    let user = atoi username
    code ← check_user S (string_of_int user)
    code' ← if code == success then del_user else pure code
    c_json code' (Payload.int user)

  unfoldable pub reset_password : Text → M ⊤
  unfolding c_json
  reset_password user = do
    redis_init
    telephone_number ← get_user_telephone_number S user
    code ← message_code_vertified S
    x ← message_code_save S code user
    x' ←
        if x == success
        then (do
          a ← message_code_send S code telephone_number
          pure (error_unless (a == success) x))
        else pure x
    c_json x' (Payload.string user)

  -- The `user` in the answer is the package variable.
  unfoldable pub information_commit : Text → Text → M ⊤
  unfolding c_json
  information_commit receive_code username = do
    let user_name = string_of_int (atoi username)
    info ← message_code_check S (string_of_int (atoi receive_code)) user_name
    info' ←
        if info == success
        then edit_user user_name >> pure success
        else pure (if info == err_token_wrong then err_token_wrong else err_token_runtime)
    u ← gets (λ w. w.global_user)
    c_json info' (Payload.user u)
