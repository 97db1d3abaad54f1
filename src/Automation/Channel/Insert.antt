-- ===== src/Automation/Channel/Insert.antt =====
-- `Insert` of Automation-IP-Handle/iph/ip-not.go, which takes the names from the channel and stores a
-- row for each. `Start` never comes to the loop that would start it, and other goroutines fill the
-- channel while it runs: the names that it receives are a parameter, one for each pass, up to the
-- pass that finds the channel empty. What database/sql and math/rand answer depends on the calls
-- before.
pub mod Rows
use koko.Base.{ℕ, ℤ, pos, List, [], ◌∷◌, Option, none, some, Bool, true, false, if◌then◌else◌}
use koko.Go.Text.{Text, bytes}
use koko.Ini.{IniFile}
use koko.Automation.Permission.{Exit, done, fatal, panic, dsn, config_of}

-- The arguments of the statement.
pub record Row : Type 0 where
  pub id : ℕ
  pub name : Text
  pub age : Text
  pub job : Text
  pub kid_id : ℕ
  pub tel : Text
  pub relation : Text

pub data Call : Type 0 where
  sql_open : Text → Call
  begin prepare rollback commit : Call
  exec : Row → Call

abbrev pub Calls : Type 0
Calls = List Call

-- Whether a call reports an error, and `rand.Intn(100)`.
pub record Server : Type 0 where
  pub open_fails : Calls → Text → Bool
  pub begin_fails : Calls → Bool
  pub prepare_fails : Calls → Bool
  pub exec_fails : Calls → Row → Bool
  pub commit_fails : Calls → Bool
  pub intn : Calls → ℕ

-- The package variable `err`, and the calls made, the newest first.
pub record Client : Type 0 where
  pub err : Bool
  pub calls : Calls

abbrev pub I : Type 0 → Type 0
I A = Client → Exit A × Client

infixl 5 ◌>>=◌ ◌>>◌
abbrev pub ◌>>=◌ : {A B : Type 0} → I A → (A → I B) → I B
◌>>=◌ m f w =
    let (r, w') = m w in elim r [ done a ↦ f a w' | fatal ↦ (fatal, w') | panic ↦ (panic, w') ]

abbrev pub ◌>>◌ : {A B : Type 0} → I A → I B → I B
m >> k = m >>= λ _. k

abbrev pub call : Call → (Calls → Bool) → I Bool
call c answer w = (done (answer w.calls), record w { calls = c ∷ w.calls })

abbrev pub fatal_if : Bool → I (Unit {0})
fatal_if c w = (if c then fatal else done tt, w)

abbrev pub panic_if : Bool → I (Unit {0})
panic_if c w = (if c then panic else done tt, w)

-- `pre.Rollback()` and then `log.Fatal`, if there was an error
abbrev pub undo_if : Bool → I (Unit {0})
undo_if c w = if c then (fatal, record w { calls = rollback ∷ w.calls }) else (done tt, w)

-- The parameters `name` and `age` of `Insert` are not used: the statement gets their names.
unfoldable pub row : ℕ → Text → Row
row n ho = record {
  id = n;
  name = bytes "name";
  age = bytes "age";
  job = bytes "Linux";
  kid_id = 5;
  tel = ho;
  relation = bytes "CS";
}

module _ (S : Server) where
  -- One transaction. As in `Update`, the error tested behind `Begin` is the package's.
  unfoldable pub insert_one : Text → I (Unit {0})
  unfolding row
  insert_one ho = do
    err1 ← call begin (λ h. S.begin_fails h)
    err ← (λ w. (done w.err, w))
    fatal_if err
    panic_if err1
    err4 ← call prepare (λ h. S.prepare_fails h)
    undo_if err4
    n ← (λ w. (done (S.intn w.calls), w))
    err2 ← call (exec (row n ho)) (λ h. S.exec_fails h (row n ho))
    undo_if err2
    err3 ← call commit (λ h. S.commit_fails h)
    fatal_if err3

  -- The loop over the names that it receives. The mutex is the goroutine's own and free at each
  -- `Lock`; the pass that finds no name in the channel calls `Wait`, which panics.
  unfoldable pub insert_all : List Text → I (Unit {0})
  unfolding insert_one
  insert_all [] w = (panic, w)
  insert_all (ho ∷ received) w = (insert_one ho >> insert_all received) w

  unfoldable pub insert : Option IniFile → List Text → I (Unit {0})
  unfolding insert_all
  insert none received w = (panic, w)
  insert (some ini) received w =
      (do
        failed ← call (sql_open (dsn (config_of ini))) (λ h. S.open_fails h (dsn (config_of ini)))
        (λ w. (done tt, record w { err = failed }))
        fatal_if failed
        insert_all received)
        w
