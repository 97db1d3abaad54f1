-- ===== src/Web/Model/Redis.antt =====
-- go-web/model/Db.go (the Redis pool) and Code_Memche.go: verification codes kept in Redis. A
-- function of the package is a function here, in snake case; prints are left out.
pub mod Calls
use koko.Base.{ℕ, ◌+◌, ◌-◌, none, some, Bool, true, false, not, text_eq, if◌then◌else◌}
use koko.Go.Text.{Text}
use koko.Web.Errmsg.{success, err_token_runtime, err_token_wrong, redis_error_save}
use koko.Web.World.{
  Command, auth, set, get, Reply, nil, Event, Services, M, ⊤, ok, panic, pure, ◌>>=◌, ◌>>◌, gets,
  modify, call,
}

abbrev pub poolsize : ℕ
poolsize = 20

-- `RedisInit` puts a new pool in the place of the old one. The function that dials is run by the
-- pool, inside the calls of its connections.
unfoldable pub redis_init : M ⊤
redis_init = modify (λ w. record w { pool = some (record { max_idle = poolsize; borrowed = 0 }) })

-- `PoolGet` dereferences `_pool`, which is nil until `RedisInit` has run.
unfoldable pub pool_get : M ⊤
pool_get w = elim w.pool [
  | none ↦ (panic, w)
  | some p ↦ (ok tt, record w { pool = some (record p { borrowed = p.borrowed + 1 }) })
]

-- `Close` gives a connection back to its pool.
unfoldable pub pool_close : M ⊤
pool_close w = elim w.pool [
  | none ↦ (panic, w)
  | some p ↦ (ok tt, record w { pool = some (record p { borrowed = p.borrowed - 1 }) })
]

-- `code != data`, between a string and an `interface{}`: equal are only two strings.
abbrev pub code_differs : Text → Reply → Bool
code_differs code (Reply.string s) = not (text_eq code s)
code_differs code _ = true

abbrev pub is_nil : Reply → Bool
is_nil nil = true
is_nil _ = false

module _ (S : Services) where
  -- `PoolGet().Do(command)`
  unfoldable pub pool_do : Command → M (Reply × Bool)
  unfolding pool_get
  pool_do c = do pool_get; call (Event.redis_do c) (λ h. S.reply h c)

  -- `PoolGet().Do("AUTH", …)`
  unfoldable pub pool_auth : M (Reply × Bool)
  unfolding pool_do
  pool_auth = do passwd ← gets (λ w. w.settings.redis_passwd); pool_do (auth passwd)

  -- Code_Memche.go
  unfoldable pub message_code_save : Text → Text → M ℕ
  unfolding pool_get pool_close pool_do pool_auth
  message_code_save code username = do
    pool_get
    pool_auth
    (_, err1) ← pool_do (set username code 120)
    pool_close
    pure (if err1 then redis_error_save else success)

  unfoldable pub message_code_check : Text → Text → M ℕ
  unfolding pool_get pool_close pool_do pool_auth
  message_code_check code user_name = do
    pool_get
    pool_auth
    (reply, _) ← pool_do (get user_name)
    pool_close
    pure (
        if is_nil reply
        then err_token_runtime
        else if code_differs code reply
        then err_token_wrong
        else success)
