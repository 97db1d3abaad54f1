-- ===== src/Web/Model/Redis/Calls.antt =====
-- What Code_Memche.go asks of Redis, and the connections that it takes and does not close.
use koko.Base.{text_eq_iff, ◌⊎◌, ◌↔◌, ℕ, ◌+◌, ◌≡◌, ◌∷◌, none, some, arith, if◌then◌else◌}
use koko.Go.Text.{Text}
use koko.Web.Errmsg.{err_token_wrong, err_token_runtime, success, redis_error_save}
use koko.Web.World.{byte_slice, auth, set, get, Event, History, Services, Pool, App, ok, panic}
use koko.Web.Model.Redis.{code_differs, message_code_check, is_nil, Reply, nil, message_code_save}

-- The calls of `MessageCodeSave`, in front of those before it.
abbrev pub save_calls : Text → Text → App → History
save_calls code username w =
    Event.redis_do (set username code 120) ∷ Event.redis_do (auth w.settings.redis_passwd) ∷ w.calls

abbrev pub check_calls : Text → App → History
check_calls user_name w =
    Event.redis_do (get user_name) ∷ Event.redis_do (auth w.settings.redis_passwd) ∷ w.calls

-- The state after a function of the file: its calls are made, and two connections stay out.
abbrev pub after : History → Pool → App → App
after calls p w = record w { pool = some (record p { borrowed = p.borrowed + 2 }); calls = calls }

abbrev pub save_status : Services → Text → Text → App → ℕ
save_status S code username w =
    if (S.reply (Event.redis_do (auth w.settings.redis_passwd) ∷ w.calls) (set username code 120)).1
    then redis_error_save
    else success

-- The code that `MessageCodeCheck` makes of a reply.
abbrev pub status_of : Text → Reply → ℕ
status_of code reply =
    if is_nil reply
    then err_token_runtime
    else if code_differs code reply
    then err_token_wrong
    else success

status_of_iff :
    (code : Text) (r : Reply)
    → ((status_of code r ≡ success) ↔ (r ≡ Reply.string code))
      × ((status_of code r ≡ err_token_runtime) ↔ (r ≡ nil))
status_of_iff code nil = ground arith
status_of_iff code (Reply.string s) = ground (arith, text_eq_iff code s)
status_of_iff code _ = ground arith

module _ (S : Services) (w : App) where
  pub message_code_save_lem :
      (code username : Text) (p : Pool)
      → w.pool ≡ some p
      → message_code_save S code username w
        ≡ (ok (save_status S code username w), after (save_calls code username w) p w)
  unfolding message_code_save
  message_code_save_lem code username p h = ground arith

  pub message_code_save_no_pool :
      (code username : Text) → w.pool ≡ none → message_code_save S code username w ≡ (panic, w)
  unfolding message_code_save
  message_code_save_no_pool code username h = ground arith

  -- The reply that `MessageCodeCheck` looks at.
  abbrev pub get_reply : Text → Reply
  get_reply user_name =
      (S.reply (Event.redis_do (auth w.settings.redis_passwd) ∷ w.calls) (get user_name)).0

  abbrev pub check_status : Text → Text → ℕ
  check_status code user_name = status_of code (get_reply user_name)

  pub message_code_check_lem :
      (code user_name : Text) (p : Pool)
      → w.pool ≡ some p
      → message_code_check S code user_name w
        ≡ (ok (check_status code user_name), after (check_calls user_name w) p w)
  unfolding message_code_check
  message_code_check_lem code user_name p h = ground arith

  pub message_code_check_no_pool :
      (code user_name : Text) → w.pool ≡ none → message_code_check S code user_name w ≡ (panic, w)
  unfolding message_code_check
  message_code_check_no_pool code user_name h = ground arith

  -- With a pool, `MessageCodeCheck` answers SUCCESS exactly when the reply to GET is a Go string
  -- equal to the code, and 304 exactly when the reply is nil; either way two of the three
  -- connections that it takes stay out.
  pub message_code_check_iff :
      (code user_name : Text) (p : Pool)
      → w.pool ≡ some p
      → (((message_code_check S code user_name w).0 ≡ ok success)
          ↔ (get_reply user_name ≡ Reply.string code))
        × (((message_code_check S code user_name w).0 ≡ ok err_token_runtime)
            ↔ (get_reply user_name ≡ nil))
        × ((message_code_check S code user_name w).1.pool
            ≡ some (record p { borrowed = p.borrowed + 2 }))
  message_code_check_iff code user_name p h =
      ground
        (arith, message_code_check_lem code user_name p h, status_of_iff code (get_reply user_name))

-- redigo's documented types of a reply to GET: a bulk string is a `[]byte`, and a missing key, like
-- an error, is nil.
abbrev pub BulkReplies : Services → Type 0
BulkReplies S =
    (h : History) (k : Text)
    → ((S.reply h (get k)).0 ≡ nil) ⊎ ((b : Text) × ((S.reply h (get k)).0 ≡ byte_slice b))

-- With those, no code is ever accepted: a string never equals a `[]byte` in an `interface{}`.
pub check_status_bulk :
    (S : Services) (w : App)
    → BulkReplies S
    → (code user_name : Text)
    → check_status S w code user_name
      ≡ (if is_nil (get_reply S w user_name) then err_token_runtime else err_token_wrong)
check_status_bulk S w bulk code user_name =
    ground (arith, bulk (Event.redis_do (auth w.settings.redis_passwd) ∷ w.calls) user_name)
