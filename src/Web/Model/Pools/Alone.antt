-- ===== src/Web/Model/Pools/Alone.antt =====
-- Calls one after another: the single pool of Web.Model.Redis is the one that `_pool` points to.
use koko.Base.{
  Option-cases, inl, inr, ◌++◌, refl, ℕ, zero, suc, ◌+◌, ◌<◌, ◌≡◌, List, [], ◌∷◌, length, Option,
  none, some, Bool, if◌then◌else◌, arith,
}
use koko.Go.Text.{Text}
use koko.Web.Errmsg.{success, redis_error_save}
use koko.Web.World.{Result, set, get, Services, Command, auth, Reply, Event, Pool, App, ok, panic}
use koko.Web.Model.Redis
use koko.Web.Model.Redis.{poolsize}
use koko.Web.Model.Redis.Calls.{status_of}
use koko.Web.Model.Pools.{
  State, take_one, give_back, pool_get, conn_close, Stage, deferring, returned, panicked, advance,
  alone,
}
use koko.Web.Model.Redis.{message_code_save, message_code_check}
use koko.Web.Model.Redis.Calls.{
  message_code_save_lem, message_code_save_no_pool, message_code_check_lem,
  message_code_check_no_pool,
}
use koko.Web.Model.Pools.{redis_init}
use koko.Web.Model.Pools.Accounts.{IsMade, borrowed}

-- The pool that `_pool` points to, as Web.Model.Redis has it.
abbrev pub view : State → Option Pool
view w = elim w.pool [
  | none ↦ none
  | some g ↦ some (record { max_idle = poolsize; borrowed = borrowed g w.pools })
]

-- The two models of one state.
abbrev pub Matches : App → State → Type 0
Matches a w = (a.pool ≡ view w) × (a.calls ≡ w.calls) × (a.settings.redis_passwd ≡ w.redis_passwd)

-- What a call that is through returns, by the reply and the error that it got.
abbrev pub outcome : (Reply × Bool → ℕ) → Stage → Result ℕ
outcome f (returned a b r) = ok (f r)
outcome f _ = panic

abbrev pub saved : Reply × Bool → ℕ
saved r = if r.1 then redis_error_save else success

abbrev pub checked : Text → Reply × Bool → ℕ
checked code r = status_of code r.0

module _ (S : Services) (c : Command) (w : State) where
  alone_made :
      (g : ℕ)
      → w.pool ≡ some g
      → alone S 6 (deferring c) w ≡ (
        returned g g (S.reply (Event.redis_do (auth w.redis_passwd) ∷ w.calls) c),
        record w {
          pools = give_back g (take_one g (take_one g (take_one g w.pools)));
          calls = Event.redis_do c ∷ Event.redis_do (auth w.redis_passwd) ∷ w.calls;
        },
      )
  unfolding alone advance pool_get conn_close
  alone_made g e = ground arith

  alone_nil : w.pool ≡ none → alone S 6 (deferring c) w ≡ (panicked [], w)
  unfolding alone advance pool_get
  alone_nil e = ground arith

two_out :
    (g : ℕ) (ns : List ℕ)
    → g < length ns
    → borrowed g (give_back g (take_one g (take_one g (take_one g ns)))) ≡ borrowed g ns + 2
two_out g [] lt = omega arith
two_out zero (n ∷ ns) lt = omega arith
two_out (suc g) (n ∷ ns) lt = two_out g ns (omega arith)

borrowed_new : (ns : List ℕ) → borrowed (length ns) (ns ++ (0 ∷ [])) ≡ 0
borrowed_new [] = refl
borrowed_new (n ∷ ns) = borrowed_new ns

-- The state and the result of one model are those of the other.
abbrev pub Agree : (Reply × Bool → ℕ) → Stage × State → Result ℕ × App → Type 0
Agree f (t, v) (r, b) = (r ≡ outcome f t) × Matches b v

module _ (S : Services) (a : App) (w : State) (made : IsMade w) (same : Matches a w) where
  saved_alike :
      (code username : Text)
      → Agree saved
          (alone S 6 (deferring (set username code 120)) w)
          (message_code_save S code username a)
  saved_alike code username = elim (Option-cases w.pool) [
    | inl cold ↦ ground (
      arith,
      alone_nil S (set username code 120) w cold,
      message_code_save_no_pool S a code username,
    )
    | inr (g, e) ↦ ground (
      arith,
      alone_made S (set username code 120) w g e,
      message_code_save_lem S a code username
          (record { max_idle = poolsize; borrowed = borrowed g w.pools }),
      two_out g w.pools,
    )
  ]

  checked_alike :
      (code user_name : Text)
      → Agree
          (checked code)
          (alone S 6 (deferring (get user_name)) w)
          (message_code_check S code user_name a)
  checked_alike code user_name = elim (Option-cases w.pool) [
    | inl cold ↦
        ground
          (arith, alone_nil S (get user_name) w cold, message_code_check_no_pool S a code user_name)
    | inr (g, e) ↦ ground (
      arith,
      alone_made S (get user_name) w g e,
      message_code_check_lem S a code user_name
          (record { max_idle = poolsize; borrowed = borrowed g w.pools }),
      two_out g w.pools,
    )
  ]

  remade_alike : Matches (Redis.redis_init a).1 (redis_init w)
  unfolding redis_init Redis.redis_init
  remade_alike = ground (arith, borrowed_new w.pools)

  -- A call that runs by itself, where `_pool` is nil or a pool that was made, is the one of
  -- Web.Model.Redis, in which the only pool is the one that `_pool` points to: six steps of
  -- `MessageCodeSave` or `MessageCodeCheck` give its answer or its panic, its commands, and its
  -- connections out of that pool, and a new pool has none out.
  pub alone-Agree :
      (code name : Text)
      → Agree saved (alone S 6 (deferring (set name code 120)) w) (message_code_save S code name a)
        × Agree
            (checked code)
            (alone S 6 (deferring (get name)) w)
            (message_code_check S code name a)
        × Matches (Redis.redis_init a).1 (redis_init w)
  alone-Agree code name = (saved_alike code name, checked_alike code name, remade_alike)
