-- ===== src/Web/Program/Outcome.antt =====
-- How the program ends, and with what it serves.
use koko.Base.{
  ◌≡◌, ◌≢◌, refl, List, [], ◌∷◌, Option, none, some, Bool, true, false, if◌then◌else◌, ◌⊎◌, inl,
  inr, arith, All, Bool-cases,
}
use koko.Ini.{IniFile}
use koko.Web.World.{Services, App, ok, panic}
use koko.Web.Setting
use koko.Web.Router.{HttpRequest, serve}
use koko.Web.Router.Startup.{IsReset, added_users, serve_before_reset}
use koko.Web.Program.{
  Conn, no_db, no_pool, opened, Frameworks, Program, dsn, open_db, init_db, init_router, main, run,
  set_mode, auto_migrate, user, article, category, message_obj, set_conn_max_lifetime,
  set_max_open_conns, set_max_idle_conns, singular_table, gorm_open,
}

-- What `utils.Init` makes of the package variables.
abbrev pub configured : IniFile → App → App
configured file w = (Setting.init (some file) w).1

conn_cases : (c : Conn) → (c ≡ no_db) ⊎ ((c ≡ no_pool) ⊎ (c ≡ opened))
conn_cases no_db = inl refl
conn_cases no_pool = inr (inl refl)
conn_cases opened = inr (inr refl)

module _ (F : Frameworks) (S : Services) (requests : List HttpRequest) where
  abbrev pub answer : IniFile → Program → Conn × Bool
  answer file p = let s = (configured file p.app).settings in F.opens s.db (dsn s)

  abbrev pub known_mode : IniFile → Program → Bool
  known_mode file p = F.knows_mode (configured file p.app).settings.mode

  abbrev pub migrated : IniFile → Program → Bool
  migrated file p = let s = (configured file p.app).settings in F.migrates s.db (dsn s)

  -- The program serves its requests.
  abbrev pub Serves : Option IniFile → Program → Type 0
  Serves none p = ⊥
  Serves (some file) p =
      let w = configured file p.app in
      main F S requests (some file) p ≡ (
        ok tt,
        record {
          app = if F.listens then serve S requests w else w;
          conn = opened;
          err = (answer file p).1;
          setup =
              run []
              ∷ set_mode w.settings.mode
              ∷ auto_migrate (user ∷ article ∷ category ∷ message_obj ∷ [])
              ∷ set_conn_max_lifetime 10
              ∷ set_max_open_conns 100
              ∷ set_max_idle_conns 10
              ∷ singular_table true
              ∷ gorm_open w.settings.db (dsn w.settings)
              ∷ p.setup;
        },
      )

  main-Serves :
      (file : IniFile) (p : Program)
      → (answer file p).0 ≡ opened
      → migrated file p ≡ true
      → known_mode file p ≡ true
      → Serves (some file) p
  unfolding main init_db open_db init_router Setting.init
  main-Serves file p usable fine known = ground (arith, usable, fine, known)

  -- Why the program cannot start.
  abbrev pub Fails : Option IniFile → Program → Type 0
  Fails none p = Unit
  Fails (some file) p =
      ((answer file p).0 ≢ opened) ⊎ ((migrated file p ≡ false) ⊎ (known_mode file p ≡ false))

  -- It has handled no request.
  abbrev pub Panics : Option IniFile → Program → Type 0
  Panics ini p =
      ((main F S requests ini p).0 ≡ panic) × ((main F S requests ini p).1.app.calls ≡ p.app.calls)

  main-Panics : (ini : Option IniFile) (p : Program) → Fails ini p → Panics ini p
  unfolding main init_db open_db init_router Setting.init
  main-Panics none p fails = (refl, refl)
  main-Panics (some file) p fails =
      ground (arith, fails, conn_cases (answer file p).0, Bool-cases (migrated file p))

  start_cases :
      (file : IniFile) (p : Program)
      → Fails (some file) p
        ⊎ (((answer file p).0 ≡ opened) × (migrated file p ≡ true) × (known_mode file p ≡ true))
  start_cases file p = ground (
    arith,
    conn_cases (answer file p).0,
    Bool-cases (migrated file p),
    Bool-cases (known_mode file p),
  )

  -- `main` does one of two things. If the settings cannot be read, or `Open` leaves no database that
  -- can be used, or `AutoMigrate` panics, or gin does not know the mode, it panics before any request
  -- is handled. Else it returns: the tables of four structs are migrated on a pool of 10 idle and 100 open connections,
  -- and the requests are served with the settings of the file if the server can listen, and not at
  -- all if it cannot. The error that `Open` reported decides nothing of this by itself. The server is
  -- given no address to listen at, whatever port the file sets.
  pub main_outcome :
      (ini : Option IniFile) (p : Program)
      → (Fails ini p × Panics ini p) ⊎ (¬ Fails ini p × Serves ini p)
  main_outcome none p = inl (tt, main-Panics none p tt)
  main_outcome (some file) p = elim (start_cases file p) [
    | inl fails ↦ inl (fails, main-Panics (some file) p fails)
    | inr (usable, fine, known) ↦ inr (
      (λ fails. elim fails [
        | inl unusable ↦ unusable usable
        | inr (inl unmigrated) ↦ cc
        | inr (inr unknown) ↦ cc
      ]),
      main-Serves file p usable fine known,
    )
  ]

  -- If `main` starts with no Redis pool, as it does, and no request is one to reset a password, then
  -- no user is added in the whole run, on whatever branch it ends.
  pub main_before_reset :
      (ini : Option IniFile) (p : Program)
      → p.app.pool ≡ none
      → All (λ r. ¬ IsReset r) requests
      → added_users (main F S requests ini p).1.app.calls ≡ added_users p.app.calls
  unfolding main init_db open_db init_router Setting.init
  main_before_reset none p cold h = refl
  main_before_reset (some file) p cold h = ground (
    arith,
    conn_cases (answer file p).0,
    serve_before_reset S requests (configured file p.app) cold h,
  )
