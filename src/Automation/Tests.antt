-- ===== src/Automation/Tests.antt =====
-- The updates of Automation-IP-Handle at concrete inputs.
use koko.Base.{◌⊎◌, some, ◌≡◌, refl, List, [], ◌∷◌, Bool, true, false, text_eq}
use koko.Go.Text.{Text, bytes}
use koko.Go.Lines.{scan_lines, trim_space}
use koko.Ini.{IniFile}
use koko.Automation.Sequential
use koko.Automation.Sequential.Goroutine.{goroutine-eq-connect}
use koko.Automation.Command.{main, start, connect, panic}
use koko.Automation.Permission.{
  Exit, fatal, sql_open, begin, prepare, exec, rollback, commit, Queries, Database, Process, done,
  update, update_all, config_of, dsn, get_ip,
}
use koko.Automation.Permission.Transactions.{
  Ran, committed_all, result, connect-Ran, is_open, connect_closes,
}
use koko.Automation.Revice.{launch, waiting, State, finished, Reach}
use koko.Automation.Revice.Completion.{finishes, finished_without_update}

-- A server that refuses the statement for one name.
abbrev refuses : Queries → Text → Bool
refuses h name = text_eq name (bytes "Lisi")

abbrev server : Database
server = record {
  open_fails = λ h t. false;
  begin_fails = λ h. false;
  prepare_fails = λ h. false;
  exec_fails = refuses;
  commit_fails = λ h. false;
}

abbrev willing : Database
willing = record server { exec_fails = λ h t. false }

abbrev ini : IniFile
ini s k default = default

abbrev content : Text
content = bytes "Zhangsan \n Lisi\nWang"

abbrev fresh : Process
fresh = record { err = false; queries = [] }

first_only :
    (result server ini content fresh).1.queries
    ≡ rollback
      ∷ exec (bytes "Lisi")
      ∷ prepare
      ∷ begin
      ∷ commit
      ∷ exec (bytes "Zhangsan")
      ∷ prepare
      ∷ begin
      ∷ sql_open (bytes "user:passwd@(ip:3306)/mysql?charset=utf8mb4")
      ∷ []
unfolding trim_space koko.Automation.Permission.connect get_ip scan_lines update dsn
first_only = refl

connect-Ran_example :
    Ran server
      (bytes "Zhangsan" ∷ bytes "Lisi" ∷ bytes "Wang" ∷ [])
      (sql_open (dsn (config_of ini)) ∷ [])
      (result server ini content fresh).0
      (result server ini content fresh).1.queries
unfolding scan_lines trim_space
connect-Ran_example = connect-Ran server ini content fresh (λ h t. refl)

abbrev lines : List Text
lines = bytes "Zhangsan " ∷ bytes " Lisi" ∷ []

abbrev all_done : Queries
all_done = committed_all (bytes "Zhangsan" ∷ bytes "Lisi" ∷ []) []

finishes_example :
    (t : State) × Reach willing (koko.Automation.Revice.start lines fresh) t
    × (t.waiter ≡ finished)
    × (t.process.queries ≡ all_done)
unfolding trim_space
finishes_example =
    finishes willing (λ h. refl) (λ h. refl) (λ h n. refl) (λ h. refl) lines fresh refl

abbrev run :
    (t : State) × Reach willing (koko.Automation.Revice.start lines fresh) t
    × (t.waiter ≡ finished)
    × (t.process.queries ≡ all_done)
unfolding trim_space
run = finishes willing (λ h. refl) (λ h. refl) (λ h n. refl) (λ h. refl) lines fresh refl

-- A whole run of both programs.
abbrev ready : Process
ready = record {
  err = false;
  queries = sql_open (bytes "user:passwd@(ip:3306)/mysql?charset=utf8mb4") ∷ [];
}

goroutine-eq-connect_example :
    let r = Sequential.connect willing (some ini) (some content) fresh in
    (launch willing (some ini) (some content) fresh ≡ (fatal, ready) → r ≡ (fatal, ready))
    × (launch willing (some ini) (some content) fresh ≡ (Exit.panic, ready)
        → r ≡ (Exit.panic, ready))
    × ((s t : State)
        → launch willing (some ini) (some content) fresh ≡ (done s, ready)
        → Reach willing s t
        → (t.waiter ≡ finished → (r ≡ (done tt, t.process)) ⊎ (r ≡ (Exit.panic, t.process)))
          × (t.exited ≡ true → t.waiter ≡ waiting → r ≡ (fatal, t.process)))
goroutine-eq-connect_example = goroutine-eq-connect willing (some ini) (some content) fresh ready

-- The third case is the one that the programs are in.
launched :
    launch willing (some ini) (some content) fresh
    ≡ (done (koko.Automation.Revice.start (scan_lines content) ready), ready)
unfolding launch dsn
launched = refl

not_starts : main (bytes "handle" ∷ bytes "not" ∷ []) ≡ start
unfolding main
not_starts = refl

per_connects : main (bytes "handle" ∷ bytes "per" ∷ []) ≡ connect
unfolding main
per_connects = refl

no_argument_panics : main (bytes "handle" ∷ []) ≡ panic
unfolding main
no_argument_panics = refl

-- With the second name refused, its transaction is rolled back.
connect_closes_example : is_open (result server ini content fresh).1.queries ≡ false
unfolding trim_space koko.Automation.Permission.connect get_ip scan_lines update dsn
connect_closes_example = connect_closes server ini content fresh (λ h t. refl) refl (λ e. cc)

-- No transaction can be begun.
abbrev closed : Database
closed = record server { begin_fails = λ h. true }

finished_without_update_example :
    (t : State) × Reach closed (koko.Automation.Revice.start lines fresh) t
    × (t.waiter ≡ finished)
    × (t.process.queries ≡ begin ∷ [])
finished_without_update_example =
    finished_without_update closed (bytes "Zhangsan ") (bytes " Lisi" ∷ []) fresh refl refl
