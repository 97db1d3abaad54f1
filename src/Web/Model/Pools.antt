-- ===== src/Web/Model/Pools.antt =====
-- go-web/model/Db.go (RedisInit, PoolGet) and Code_Memche.go, one step for each `PoolGet`, each
-- command and each `Close`: several calls and replacements of `_pool` may interleave, and every
-- connection belongs to the pool that it was taken from, also when that is no longer `_pool`.
pub mod Accounts
pub mod Conserved
pub mod Interleaved
pub mod Alone
use koko.Base.{ℕ, zero, suc, ◌+◌, ◌-◌, List, [], ◌∷◌, ◌++◌, length, Option, none, some, Bool}
use koko.Go.Text.{Text}
use koko.Web.World.{Command, auth, Reply, Event, History, Services}

-- `_pool` is the number of a pool, in the order in which they were made; of each pool, the
-- connections that were taken and not closed.
pub record State : Type 0 where
  pub pools : List ℕ
  pub pool : Option ℕ
  pub redis_passwd : Text
  pub calls : History

-- A connection, by the number of its pool.
abbrev pub Conn : Type 0
Conn = ℕ

abbrev pub take_one : ℕ → List ℕ → List ℕ
take_one g [] = []
take_one zero (n ∷ ns) = (n + 1) ∷ ns
take_one (suc g) (n ∷ ns) = n ∷ take_one g ns

abbrev pub give_back : ℕ → List ℕ → List ℕ
give_back g [] = []
give_back zero (n ∷ ns) = (n - 1) ∷ ns
give_back (suc g) (n ∷ ns) = n ∷ give_back g ns

-- `RedisInit` makes a pool and lets `_pool` point to it; the old one stays as it is.
unfoldable pub redis_init : State → State
redis_init w = record w { pools = w.pools ++ (0 ∷ []); pool = some (length w.pools) }

-- `PoolGet`; with `_pool` nil it panics, which is `none`.
unfoldable pub pool_get : State → Option Conn × State
pool_get w = elim w.pool [
  | none ↦ (none, w)
  | some g ↦ (some g, record w { pools = take_one g w.pools })
]

-- `Close`
unfoldable pub conn_close : Conn → State → State
conn_close g w = record w { pools = give_back g w.pools }

-- Where a call stands. `MessageCodeSave` and `MessageCodeCheck` differ in their command: at
-- `defer PoolGet().Close()`, at the `PoolGet` before AUTH with the connection that is to be closed,
-- before AUTH, at the `PoolGet` of the command, before the command, and before the deferred `Close`;
-- then returned, with the reply, or panicked, with the connections that stay out. `replacing` is a
-- call of `RedisInit`.
pub data Stage : Type 0 where
  deferring : Command → Stage
  connecting : Command → Conn → Stage
  authenticating : Command → Conn → Conn → Stage
  asking : Command → Conn → Conn → Stage
  sending : Command → Conn → Conn → Conn → Stage
  closing : Conn → Conn → Conn → Reply × Bool → Stage
  returned : Conn → Conn → Reply × Bool → Stage
  panicked : List Conn → Stage
  replacing : Stage
  replaced : Stage

-- The stage after a `PoolGet`; where it panics the deferred `Close` still runs.
abbrev pub connected : List Conn → (Conn → Stage) → Option Conn × State → Stage × State
connected out next (none, w) = (panicked out, w)
connected out next (some g, w) = (next g, w)

abbrev pub connected_or_closed :
    Conn → List Conn → (Conn → Stage) → Option Conn × State → Stage × State
connected_or_closed g out next (none, w) = (panicked out, conn_close g w)
connected_or_closed g out next (some a, w) = (next a, w)

module _ (S : Services) where
  -- The code from one stage to the next.
  unfoldable pub advance : Stage → State → Stage × State
  unfolding redis_init pool_get conn_close
  advance (deferring c) w = connected [] (connecting c) (pool_get w)
  advance (connecting c g) w = connected_or_closed g [] (authenticating c g) (pool_get w)
  advance (authenticating c g a) w =
      (asking c g a, record w { calls = Event.redis_do (auth w.redis_passwd) ∷ w.calls })
  advance (asking c g a) w = connected_or_closed g (a ∷ []) (sending c g a) (pool_get w)
  advance (sending c g a b) w =
      (closing g a b (S.reply w.calls c), record w { calls = Event.redis_do c ∷ w.calls })
  advance (closing g a b r) w = (returned a b r, conn_close g w)
  advance (returned a b r) w = (returned a b r, w)
  advance (panicked out) w = (panicked out, w)
  advance replacing w = (replaced, redis_init w)
  advance replaced w = (replaced, w)

  -- A call that runs by itself.
  unfoldable pub alone : ℕ → Stage → State → Stage × State
  unfolding advance
  alone zero s w = (s, w)
  alone (suc n) s w = let (t, v) = advance s w in alone n t v

  -- The `i`-th call goes on; a number with no call stands for a pause.
  unfoldable pub advance_at : ℕ → List Stage → State → List Stage × State
  unfolding advance
  advance_at i [] w = ([], w)
  advance_at zero (s ∷ ss) w = let (t, v) = advance s w in (t ∷ ss, v)
  advance_at (suc i) (s ∷ ss) w = let (ts, v) = advance_at i ss w in (s ∷ ts, v)

  -- Calls that go on in the order of the schedule.
  unfoldable pub interleave : List ℕ → List Stage → State → List Stage × State
  unfolding advance_at
  interleave [] ss w = (ss, w)
  interleave (i ∷ schedule) ss w = let (ts, v) = advance_at i ss w in interleave schedule ts v
