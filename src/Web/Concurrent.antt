-- ===== src/Web/Concurrent.antt =====
-- go-web/api/v1 (user.go, change_pass.go) under gin, which runs every request in a goroutine of its
-- own: the handlers in stages, each of which calls one function of package model and comes to the
-- package variable `user` in one place of the code at most, and servers on which the stages of
-- several requests interleave.
pub mod Stages
pub mod Handlers
pub mod Races
pub mod Duplicates
pub mod Spending
pub mod Safety
pub mod Progress
pub mod Warm
pub mod Cold
use koko.Base.{ℕ, zero, suc, List, [], ◌∷◌, Option, none, some, ◌==◌, if◌then◌else◌}
use koko.Go.Text.{Text, bytes, string_of_int}
use koko.Go.Strconv.{atoi}
use koko.Web.Errmsg.{success, err_token_wrong, err_token_runtime}
use koko.Web.World.{
  Payload, Response, Services, App, Result, ok, panic, M, pure, ◌>>=◌, ◌>>◌, gets, modify,
}
use koko.Web.Model.Redis.{redis_init, message_code_save, message_code_check}
use koko.Web.Model.Message.{message_code_vertified, message_code_send, get_user_telephone_number}
use koko.Web.Model.User.{check_user, add_user, get_users, edit_user, del_user}
use koko.Web.Api.{Body, should_bind_json, c_json, error_unless, minus_one_for_zero}
use koko.Web.Router.{HttpRequest, Handler, find_route, routes, query}

-- Where a request stands in its handler, with the local variables: in `UserAdd`, before the answer of
-- `UserQuery`, `UserEdit` and `UserDel`, in `ResetPassword`, in `InformationCommit`, and at the answer
-- of a handler that gives one.
pub data Stage : Type 0 where
  binding : Body → Stage
  checking : Stage
  preparing : Stage
  saving : Text → Text → Stage
  sending : ℕ → Text → Text → Stage
  adding : ℕ → ℕ → Stage
  answering : ℕ → Stage
  finishing : ℕ → Stage
  querying : Text → Text → Stage
  editing deleting : Text → Stage
  resetting : Text → Stage
  phoning : Text → Stage
  drawing : Text → Text → Stage
  storing : Text → Text → Text → Stage
  texting : ℕ → Text → Text → Text → Stage
  committing : Text → Text → Stage
  confirming : ℕ → Stage
  replying : ℕ → Payload → Stage
  returned : Stage
  panicked : Stage

module _ (S : Services) where
  -- `ResetPassword`, from one stage to the next.
  abbrev start_reset : Text → M Stage
  start_reset user = do redis_init; pure (phoning user)

  abbrev look_up_phone : Text → M Stage
  look_up_phone user = do
    telephone_number ← get_user_telephone_number S user
    pure (drawing user telephone_number)

  abbrev draw_code : Text → Text → M Stage
  draw_code user telephone_number = do
    code ← message_code_vertified S
    pure (storing user telephone_number code)

  abbrev store_code : Text → Text → Text → M Stage
  store_code user telephone_number code = do
    x ← message_code_save S code user
    pure (
        if x == success
        then texting x user telephone_number code
        else replying x (Payload.string user))

  abbrev send_code : ℕ → Text → Text → Text → M Stage
  send_code x user telephone_number code = do
    a ← message_code_send S code telephone_number
    pure (replying (error_unless (a == success) x) (Payload.string user))

  -- `InformationCommit`, likewise.
  abbrev check_code : Text → Text → M Stage
  check_code receive_code username = do
    let user_name = string_of_int (atoi username)
    info ← message_code_check S (string_of_int (atoi receive_code)) user_name
    info' ←
        if info == success
        then edit_user user_name >> pure success
        else pure (if info == err_token_wrong then err_token_wrong else err_token_runtime)
    pure (confirming info')

  abbrev confirm : ℕ → M Stage
  confirm info = do u ← gets (λ w. w.global_user); c_json info (Payload.user u); pure returned

  -- The code from one stage to the next; the first eight clauses are `UserAdd`.
  unfoldable pub advance : Stage → M Stage
  advance (binding b) = do err ← should_bind_json b; pure (if err then returned else checking)
  advance checking = do
    u ← gets (λ w. w.global_user)
    return_code ← check_user S u.username
    pure (if return_code == success then preparing else finishing return_code)
  advance preparing = do
    u ← gets (λ w. w.global_user)
    code ← message_code_vertified S
    pure (saving code u.phone)
  advance (saving code telephone_number) = do
    u ← gets (λ w. w.global_user)
    x ← message_code_save S code u.username
    pure (if x == success then sending x code telephone_number else finishing success)
  advance (sending x code telephone_number) = do
    a ← message_code_send S code telephone_number
    pure (adding x a)
  advance (adding x a) = do
    u ← gets (λ w. w.global_user)
    (u', b) ← add_user S u
    modify (λ w. record w { global_user = u' })
    pure (answering (error_unless (b == success) (error_unless (a == success) x)))
  advance (answering status) = do
    u ← gets (λ w. w.global_user)
    c_json status (Payload.user u)
    pure (finishing success)
  advance (finishing return_code) = do
    u ← gets (λ w. w.global_user)
    c_json return_code (Payload.user u)
    pure returned
  advance (querying pagesize pagenum) = do
    users ← get_users S (minus_one_for_zero (atoi pagesize)) (minus_one_for_zero (atoi pagenum))
    pure (replying success (Payload.users users))
  advance (editing username) = do
    let user = atoi username
    code ← check_user S (string_of_int user)
    code' ← if code == success then edit_user (string_of_int user) else pure code
    pure (replying code' (Payload.int user))
  advance (deleting username) = do
    let user = atoi username
    code ← check_user S (string_of_int user)
    code' ← if code == success then del_user else pure code
    pure (replying code' (Payload.int user))
  advance (resetting user) = start_reset user
  advance (phoning user) = look_up_phone user
  advance (drawing user telephone_number) = draw_code user telephone_number
  advance (storing user telephone_number code) = store_code user telephone_number code
  advance (texting x user telephone_number code) = send_code x user telephone_number code
  advance (committing receive_code username) = check_code receive_code username
  advance (confirming info) = confirm info
  advance (replying status payload) = do c_json status payload; pure returned
  advance returned = pure returned
  advance panicked = pure panicked

-- A panic ends the request alone.
abbrev pub stage_of : Result Stage → Stage
stage_of (ok s) = s
stage_of panic = panicked

module _ (S : Services) where
  -- A request that has the server for itself.
  unfoldable pub alone : ℕ → Stage → App → Stage × App
  alone zero s w = (s, w)
  alone (suc n) s w = let (r, v) = advance S s w in alone n (stage_of r) v

-- A request under way, and what it has answered.
pub record Request : Type 0 where
  pub stage : Stage
  pub written : List Response

-- A request to add a user, whatever its route.
abbrev pub arrived_to_add : Body → Request
arrived_to_add b = record { stage = binding b; written = [] }

-- Where a request starts.
unfoldable pub first_stage : Option Handler → HttpRequest → Stage
first_stage none r = returned
first_stage (some Handler.user_add) r = binding r.body
first_stage (some Handler.user_query) r =
    querying (query (bytes "pagesize") r.query) (query (bytes "pagenum") r.query)
first_stage (some Handler.user_edit) r = editing (query (bytes "username") r.query)
first_stage (some Handler.user_del) r = deleting (query (bytes "username") r.query)
first_stage (some Handler.reset_password) r = resetting (query (bytes "username") r.query)
first_stage (some Handler.information_commit) r =
    committing (query (bytes "receiveCode") r.query) (query (bytes "username") r.query)

unfoldable pub arrived : HttpRequest → Request
unfolding first_stage
arrived r = record { stage = first_stage (find_route routes r.method r.path) r; written = [] }

module _ (S : Services) where
  -- One stage of one request; what it answers is its own.
  unfoldable pub advance_request : Request → App → Request × App
  advance_request q w =
      let (r, v) = advance S q.stage (record w { written = q.written }) in
      (record { stage = stage_of r; written = v.written }, record v { written = w.written })

  -- The `i`-th request goes on; a number with no request stands for a pause.
  unfoldable pub advance_at : ℕ → List Request → App → List Request × App
  unfolding advance_request
  advance_at i [] w = ([], w)
  advance_at zero (q ∷ qs) w = let (q', v) = advance_request q w in (q' ∷ qs, v)
  advance_at (suc i) (q ∷ qs) w = let (qs', v) = advance_at i qs w in (q ∷ qs', v)

  -- A server on which the requests go on in the order of the schedule.
  unfoldable pub interleave : List ℕ → List Request → App → List Request × App
  unfolding advance_at
  interleave [] qs w = (qs, w)
  interleave (i ∷ schedule) qs w = let (qs', v) = advance_at i qs w in interleave schedule qs' v
