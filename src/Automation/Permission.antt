-- ===== src/Automation/Permission.antt =====
-- Automation-IP-Handle/iph/ip-permission.go: `Connect`, `Get_IP` and `Update`. What database/sql and
-- the server answer is a function of the calls before. Prints and the pool's limits are left out.
pub mod Transactions
use koko.Base.{ℕ, List, [], ◌∷◌, ◌++◌, Option, none, some, Bool, true, false, if◌then◌else◌}
use koko.Go.Text.{Text, bytes}
use koko.Go.Lines.{scan_lines, trim_space}
use koko.Ini.{IniFile}

-- The package variables that `Get_DB` sets.
pub record Config : Type 0 where
  pub host : Text
  pub user : Text
  pub passwd : Text
  pub port : Text
  pub db : Text

-- A call of the database. `exec name` runs the one statement, which sets `tel` where `name` fits.
pub data Query : Type 0 where
  sql_open : Text → Query
  begin : Query
  prepare : Query
  exec : Text → Query
  rollback : Query
  commit : Query

-- The calls made so far, the newest first.
abbrev pub Queries : Type 0
Queries = List Query

-- Whether a call reports an error.
pub record Database : Type 0 where
  pub open_fails : Queries → Text → Bool
  pub begin_fails : Queries → Bool
  pub prepare_fails : Queries → Bool
  pub exec_fails : Queries → Text → Bool
  pub commit_fails : Queries → Bool

-- `err` is the package variable: whether it is other than nil.
pub record Process : Type 0 where
  pub err : Bool
  pub queries : Queries

-- A function returns, ends the process by `log.Fatal`, or panics.
pub data Exit (A : Type 0) : Type 0 where
  done : A → Exit A
  fatal : Exit A
  panic : Exit A

abbrev pub P : Type 0 → Type 0
P A = Process → Exit A × Process

infixl 5 ◌>>=◌ ◌>>◌
abbrev pub ◌>>=◌ : {A B : Type 0} → P A → (A → P B) → P B
◌>>=◌ m f w =
    let (r, w') = m w in elim r [ done a ↦ f a w' | fatal ↦ (fatal, w') | panic ↦ (panic, w') ]

abbrev pub ◌>>◌ : {A B : Type 0} → P A → P B → P B
m >> k = m >>= λ _. k

abbrev pub call : {A : Type 0} → Query → (Queries → A) → P A
call q answer w = (done (answer w.queries), record w { queries = q ∷ w.queries })

abbrev pub fatal_if : Bool → P (Unit {0})
fatal_if c w = (if c then fatal else done tt, w)

abbrev pub panic_if : Bool → P (Unit {0})
panic_if c w = (if c then panic else done tt, w)

-- `pre.Rollback()` and then `log.Fatal`, if there was an error
abbrev pub undo_if : Bool → P (Unit {0})
undo_if c w = if c then (fatal, record w { queries = rollback ∷ w.queries }) else (done tt, w)

-- "%s:%s@(%s:%s)/%s?charset=utf8mb4"
unfoldable pub dsn : Config → Text
dsn c =
    c.user
    ++ (bytes ":"
        ++ (c.passwd
            ++ (bytes "@("
                ++ (c.host
                    ++ (bytes ":"
                        ++ (c.port ++ (bytes ")/" ++ (c.db ++ bytes "?charset=utf8mb4"))))))))

abbrev pub config_of : IniFile → Config
config_of file = record {
  host = file (bytes "DATABASE") (bytes "host") (bytes "ip");
  user = file (bytes "DATABASE") (bytes "user") (bytes "user");
  passwd = file (bytes "DATABASE") (bytes "passwd") (bytes "passwd");
  port = file (bytes "DATABASE") (bytes "port") (bytes "3306");
  db = file (bytes "DATABASE") (bytes "database") (bytes "mysql");
}

-- `Get_DB`; a file that cannot be loaded is nil, and its first section is asked for: a panic.
unfoldable pub get_db : Option IniFile → P Config
get_db none w = (panic, w)
get_db (some file) w = (done (config_of file), w)

module _ (D : Database) where
  -- The error of `Begin` is `err1`, and the one tested is the package's `err`: where `Begin` fails
  -- `pre` is nil, and `Prepare` dereferences it.
  unfoldable pub update : Text → P (Unit {0})
  update ho = do
    err1 ← call begin (λ h. D.begin_fails h)
    err ← (λ w. (done w.err, w))
    fatal_if err
    panic_if err1
    err4 ← call prepare (λ h. D.prepare_fails h)
    undo_if err4
    err2 ← call (exec ho) (λ h. D.exec_fails h ho)
    undo_if err2
    err3 ← call commit (λ h. D.commit_fails h)
    fatal_if err3

  -- The loop over the lines.
  unfoldable pub update_all : List Text → P (Unit {0})
  update_all [] w = (done tt, w)
  update_all (line ∷ lines) w = (update (trim_space line) >> update_all lines) w

  -- `Get_IP`; `none` is a file that cannot be opened.
  unfoldable pub get_ip : Option Text → P (Unit {0})
  unfolding update_all
  get_ip none w = (fatal, w)
  get_ip (some content) w = update_all (scan_lines content) w

  -- `Connect`
  unfoldable pub connect : Option IniFile → Option Text → P (Unit {0})
  unfolding get_db
  connect ini content = do
    c ← get_db ini
    failed ← call (sql_open (dsn c)) (λ h. D.open_fails h (dsn c))
    (λ w. (done tt, record w { err = failed }))
    fatal_if failed
    get_ip content
