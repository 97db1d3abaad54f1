-- ===== src/Web/World.antt =====
-- go-web's state and the services that it calls. What answers a call is third-party code (gorm
-- over MySQL, redigo over Redis, Aliyun's SMS client, the random source seeded by the clock): a
-- service is a function of every call made before, so it may remember, forget, fail or change its
-- mind. The types are those of go-web/model (User.go, ReturnMessage.go) and go-web/utils.
use koko.Base.{ℕ, ℤ, List, [], ◌∷◌, Option, Bool, if◌then◌else◌}
use koko.Go.Text.{Text}

-- `model.User`; of the embedded gorm.Model the code reads only the primary key.
pub record User : Type 0 where
  pub id : ℕ
  pub username : Text
  pub password : Text
  pub address : Text
  pub phone : Text

-- The zero value, with which the package variable `user` of go-web/api/v1 starts.
abbrev pub no_user : User
no_user = record { id = 0; username = []; password = []; address = []; phone = [] }

-- `model.Message_obj`
pub record MessageObj : Type 0 where
  pub request_id : Text
  pub message : Text
  pub biz_id : Text
  pub code : Text
  pub phone : Text

-- The fields of a `dysmsapi.SendSmsRequest` that the code sets, and of its response that it reads.
pub record SmsRequest : Type 0 where
  pub scheme : Text
  pub phone_numbers : Text
  pub domain : Text
  pub sign_name : Text
  pub template_code : Text
  pub template_param : Text

pub record SmsResponse : Type 0 where
  pub request_id : Text
  pub message : Text
  pub biz_id : Text
  pub code : Text

-- The Redis commands that the code sends; `set k v s` is SET k v EX s.
pub data Command : Type 0 where
  auth : Text → Command
  set : Text → Text → ℕ → Command
  get : Text → Command

-- A reply as the `interface{}` that redigo's `Do` gives, by its dynamic type.
pub data Reply : Type 0 where
  nil : Reply
  int64 : ℤ → Reply
  string : Text → Reply
  byte_slice : Text → Reply
  slice : Reply

-- An error of a gorm query: `gorm.ErrRecordNotFound` or another.
pub data FindError : Type 0 where
  record_not_found : FindError
  other : FindError

-- A call of a service.
pub data Event : Type 0 where
  rand_intn : ℕ → Event
  redis_do : Command → Event
  new_client : Text → Text → Text → Event
  send_sms : SmsRequest → Event
  first_user_id : Text → Event
  find_phone : Text → Event
  find_users : ℤ → ℤ → Event
  create_user : User → Event
  create_message : MessageObj → Event

-- The calls made so far, the newest first.
abbrev pub History : Type 0
History = List Event

pub record Services : Type 0 where
  -- `rand.Intn(n)` after `rand.Seed(time.Now().UnixNano())`
  pub intn : History → ℕ → ℕ
  -- the reply to a command, and whether there is an error
  pub reply : History → Command → Reply × Bool
  -- whether the SMS client cannot be made
  pub client_fails : History → Bool
  -- the response, and whether there is an error
  pub sms : History → SmsRequest → SmsResponse × Bool
  -- the ID that `First` leaves in the struct: 0 where no row is found or the query fails
  pub id_of : History → Text → ℕ
  -- the phone that `Find` leaves in the struct, likewise
  pub phone_of : History → Text → Text
  pub users_of : History → ℤ → ℤ → List User × Option FindError
  -- the struct after `Create` (gorm writes the key into it), and whether there is an error
  pub create : History → User → User × Bool
  -- whether the row cannot be created
  pub message_fails : History → MessageObj → Bool

-- go-web/utils: the variables that `Init` sets.
pub record Settings : Type 0 where
  pub mode : Text
  pub http_port : Text
  pub db : Text
  pub db_host : Text
  pub db_port : Text
  pub db_user : Text
  pub db_passwd : Text
  pub db_name : Text
  pub redis_host : Text
  pub redis_port : Text
  pub redis_passwd : Text
  pub redis_db : Text
  pub region_id : Text
  pub access_key_id : Text
  pub access_key_secret : Text
  pub sign_name : Text
  pub template_code : Text

-- What the code does with a `redis.Pool`: connections that it took and has not closed.
pub record Pool : Type 0 where
  pub max_idle : ℕ
  pub borrowed : ℕ

-- The "data" of a response.
pub data Payload : Type 0 where
  user : User → Payload
  users : Option (List User) → Payload
  int : ℤ → Payload
  string : Text → Payload

-- What `c.JSON(http.StatusOK, gin.H{…})` writes.
pub record Response : Type 0 where
  pub status : ℕ
  pub payload : Payload
  pub massage : Text

-- The package variables (`user`, `_pool`, the settings), the calls made, and what the handler at
-- work has written, the newest first.
pub record App : Type 0 where
  pub global_user : User
  pub pool : Option Pool
  pub settings : Settings
  pub calls : History
  pub written : List Response

pub data Result (A : Type 0) : Type 0 where
  ok : A → Result A
  panic : Result A

-- Go code: it returns or panics, and what it has changed stays changed.
abbrev pub M : Type 0 → Type 0
M A = App → Result A × App

abbrev pub ⊤ : Type 0
⊤ = Unit

abbrev pub pure : {A : Type 0} → A → M A
pure a w = (ok a, w)

infixl 5 ◌>>=◌ ◌>>◌
abbrev pub ◌>>=◌ : {A B : Type 0} → M A → (A → M B) → M B
◌>>=◌ m f w = let (r, w') = m w in elim r [ ok a ↦ f a w' | panic ↦ (panic, w') ]

abbrev pub ◌>>◌ : {A B : Type 0} → M A → M B → M B
m >> k = m >>= λ _. k

abbrev pub gets : {A : Type 0} → (App → A) → M A
gets f w = (ok (f w), w)

abbrev pub modify : (App → App) → M ⊤
modify f w = (ok tt, f w)

-- A call of a service: it answers from the calls before it, and is one of those of the next.
abbrev pub call : {A : Type 0} → Event → (History → A) → M A
call e answer w = (ok (answer w.calls), record w { calls = e ∷ w.calls })

abbrev pub when : Bool → M ⊤ → M ⊤
when c m w = if c then m w else (ok tt, w)
