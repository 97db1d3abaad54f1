-- ===== src/Web/Tests/Starts.antt =====
-- go-web's start at concrete inputs.
use koko.Base.{◌⊎◌, ◌≡◌, refl, [], ◌∷◌, some, true, false, text_eq, if◌then◌else◌, List}
use koko.Go.Text.{bytes}
use koko.Ini.{IniFile}
use koko.Web.World.{panic}
use koko.Web.Setting
use koko.Web.Router.{HttpRequest, post}
use koko.Web.Program.{
  no_db, opened, Frameworks, Program, dsn, main, init_db, open_db, init_router, run, set_mode,
  auto_migrate, user, article, category, message_obj, set_conn_max_lifetime, set_max_open_conns,
  set_max_idle_conns, singular_table, gorm_open,
}
use koko.Web.Program.Outcome.{configured, main_outcome, Fails, Panics, Serves}
use koko.Web.Tests.Fixtures.{services, cold, lisi}

-- A file in which the port of the server alone is set.
abbrev file : IniFile
file s k d = if text_eq k (bytes "HttpPort") then bytes "9000" else d

abbrev reachable : Frameworks
reachable = record {
  opens = λ d s. (opened, false);
  migrates = λ d s. true;
  knows_mode = text_eq (bytes "debug");
  listens = true;
}

-- No server answers: `Open` says so, and leaves a database that cannot be asked.
abbrev unreachable : Frameworks
unreachable = record reachable { opens = λ d s. (opened, true); migrates = λ d s. false }

-- A driver that nobody has registered.
abbrev no_driver : Frameworks
no_driver = record unreachable { opens = λ d s. (no_db, true) }

abbrev program : Program
program = record { app = cold; conn = no_db; err = false; setup = [] }

abbrev requests : List HttpRequest
requests = record { method = post; path = bytes "/api/v1/user/add"; query = []; body = lisi } ∷ []

main_outcome_example :
    (Fails reachable services requests (some file) program
      × Panics reachable services requests (some file) program)
    ⊎ (¬ Fails reachable services requests (some file) program
        × Serves reachable services requests (some file) program)
main_outcome_example = main_outcome reachable services requests (some file) program

starts :
    (main reachable services requests (some file) program).1.setup
    ≡ run []
      ∷ set_mode (bytes "debug")
      ∷ auto_migrate (user ∷ article ∷ category ∷ message_obj ∷ [])
      ∷ set_conn_max_lifetime 10
      ∷ set_max_open_conns 100
      ∷ set_max_idle_conns 10
      ∷ singular_table true
      ∷ gorm_open (bytes "mysql") (dsn (configured file cold).settings)
      ∷ []
unfolding main init_db open_db init_router Setting.init
starts = refl

-- A server that cannot be reached keeps the program from starting, as does a driver that is not
-- known.
stops : (main unreachable services requests (some file) program).0 ≡ panic
unfolding main init_db open_db init_router Setting.init
stops = refl

panics : (main no_driver services requests (some file) program).0 ≡ panic
unfolding main init_db open_db init_router Setting.init
panics = refl

data_source :
    dsn (configured file cold).settings ≡ bytes "mysql:@tcp(:)/gin?charset=utf8&parseTime=true"
unfolding dsn Setting.init
data_source = refl
