-- ===== src/Web/Program.antt =====
-- go-web/main.go, `InitDb` of go-web/model/Db.go and the start of the server in
-- go-web/routers/routers.go: the program from its settings to its requests. gorm and gin are
-- third-party code, and what they answer is a parameter.
pub mod Outcome
use koko.Base.{ℕ, List, [], ◌∷◌, ◌++◌, Option, none, some, Bool, true, false, not, if◌then◌else◌}
use koko.Go.Text.{Text, bytes}
use koko.Ini.{IniFile}
use koko.Web.World.{Settings, Services, App, Result, ok, panic, ⊤}
use koko.Web.Setting
use koko.Web.Router.{HttpRequest, serve}

-- What `gorm.Open` leaves in `_conn`: nil, a `*gorm.DB` without a `*sql.DB`, or one with it.
pub data Conn : Type 0 where
  no_db no_pool opened : Conn

-- `Open` also tells whether it reports an error: it does where the server cannot be reached, and the
-- database is `opened` all the same.
pub record Frameworks : Type 0 where
  pub opens : Text → Text → Conn × Bool
  pub knows_mode : Text → Bool
  -- Whether `AutoMigrate` comes back. It does not where the server cannot be asked for its tables:
  -- gorm's dialect for MySQL panics with the error.
  pub migrates : Text → Text → Bool
  pub listens : Bool

-- The structs of which tables are made.
pub data Model : Type 0 where
  user article category message_obj : Model

-- A call of gorm, of its pool, or of gin. A time is in seconds.
pub data Setup : Type 0 where
  gorm_open : Text → Text → Setup
  singular_table : Bool → Setup
  set_max_idle_conns set_max_open_conns set_conn_max_lifetime : ℕ → Setup
  auto_migrate : List Model → Setup
  set_mode : Text → Setup
  run : List Text → Setup

-- The package variables `_conn` and `err` (whether it is other than nil), those of `App`, and the
-- calls made, the newest first.
pub record Program : Type 0 where
  pub app : App
  pub conn : Conn
  pub err : Bool
  pub setup : List Setup

abbrev pub G : Type 0 → Type 0
G A = Program → Result A × Program

infixl 5 ◌>>=◌ ◌>>◌
abbrev pub ◌>>=◌ : {A B : Type 0} → G A → (A → G B) → G B
◌>>=◌ m f p = let (r, p') = m p in elim r [ ok a ↦ f a p' | panic ↦ (panic, p') ]

abbrev pub ◌>>◌ : {A B : Type 0} → G A → G B → G B
m >> k = m >>= λ _. k

abbrev pub act : Setup → G ⊤
act c p = (ok tt, record p { setup = c ∷ p.setup })

abbrev pub panic_if : Bool → G ⊤
panic_if c p = (if c then panic else ok tt, p)

abbrev pub settings : G Settings
settings p = (ok p.app.settings, p)

-- A nil pointer is dereferenced.
abbrev pub is_no_db : Conn → Bool
is_no_db no_db = true
is_no_db _ = false

abbrev pub is_no_pool : Conn → Bool
is_no_pool no_pool = true
is_no_pool _ = false

-- "%s:%s@tcp(%s:%s)/%s?charset=utf8&parseTime=true"
unfoldable pub dsn : Settings → Text
dsn s =
    s.db_user
    ++ (bytes ":"
        ++ (s.db_passwd
            ++ (bytes "@tcp("
                ++ (s.db_host
                    ++ (bytes ":"
                        ++ (s.db_port
                            ++ (bytes ")/"
                                ++ (s.db_name ++ bytes "?charset=utf8&parseTime=true"))))))))

module _ (F : Frameworks) where
  -- `_conn, err = gorm.Open(…)`
  unfoldable pub open_db : Settings → G ⊤
  unfolding dsn
  open_db s p =
      let (conn, err) = F.opens s.db (dsn s) in
      (ok tt, record p { conn = conn; err = err; setup = gorm_open s.db (dsn s) ∷ p.setup })

  -- `InitDb`; the error is looked at last, and printed.
  unfoldable pub init_db : G ⊤
  unfolding open_db dsn
  init_db = do
    s ← settings
    open_db s
    conn ← (λ p. (ok p.conn, p))
    panic_if (is_no_db conn)
    act (singular_table true)
    panic_if (is_no_pool conn)
    act (set_max_idle_conns 10)
    act (set_max_open_conns 100)
    act (set_conn_max_lifetime 10)
    act (auto_migrate (user ∷ article ∷ category ∷ message_obj ∷ []))
    panic_if (not (F.migrates s.db (dsn s)))

  module _ (S : Services) (requests : List HttpRequest) where
    -- `InitRouter`, and the requests that come in. `r.Run()` gets no address; where it cannot listen
    -- it returns an error, which is dropped.
    unfoldable pub init_router : G ⊤
    init_router = do
      s ← settings
      panic_if (not (F.knows_mode s.mode))
      act (set_mode s.mode)
      act (run [])
      (λ p. (ok tt, record p { app = if F.listens then serve S requests p.app else p.app }))

    unfoldable pub main : Option IniFile → G ⊤
    unfolding init_db init_router
    main ini = do
      (λ p. let (r, app) = Setting.init ini p.app in (r, record p { app = app }))
      init_db
      init_router

-- `GetDB`
abbrev pub get_db : Program → Conn
get_db p = p.conn
