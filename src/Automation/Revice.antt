-- ===== src/Automation/Revice.antt =====
-- Automation-IP-Handle/ip-permission-revice-1.go: the same updates in a goroutine, `Get_IP`, while
-- `Connect` waits for a text on an unbuffered channel, which `Get_IP` sends by a deferred call. Its
-- `Update` is that of ip-permission.go, line for line.
pub mod Completion
use koko.Base.{Option, none, some, List, [], ◌∷◌, ◌≡◌, Bool, true, false}
use koko.Go.Text.{Text}
use koko.Go.Lines.{scan_lines, trim_space}
use koko.Ini.{IniFile}
use koko.Automation.Permission.{
  sql_open, Database, Process, Exit, done, fatal, panic, P, ◌>>=◌, ◌>>◌, call, fatal_if, dsn,
  get_db, update,
}

-- Where `Get_IP` stands: before the lines that are left, in its deferred send after the last line or
-- after a panic, or behind that send.
pub data Worker : Type 0 where
  running : List Text → Worker
  returning : Worker
  panicking : Worker
  gone : Worker
  unwound : Worker

-- Where `Connect` stands: at `<-ch`, or at the line that says that the work is done.
pub data Waiter : Type 0 where
  waiting : Waiter
  finished : Waiter

pub record State : Type 0 where
  pub worker : Worker
  pub waiter : Waiter
  pub process : Process
  pub exited : Bool

-- The state when the goroutine has opened the file and `Connect` waits.
abbrev pub start : List Text → Process → State
start lines w = record { worker = running lines; waiter = waiting; process = w; exited = false }

module _ (D : Database) where
  -- `main` up to the loop over the lines: `Get_DB`, `Connect` to the receive, and the open file, in
  -- the goroutine, while `Connect` waits. `none` is a file that cannot be opened.
  unfoldable pub launch : Option IniFile → Option Text → P State
  unfolding get_db
  launch ini content = do
    c ← get_db ini
    failed ← call (sql_open (dsn c)) (λ h. D.open_fails h (dsn c))
    (λ w. (done tt, record w { err = failed }))
    fatal_if failed
    (λ w. (elim content [ none ↦ fatal | some text ↦ done (start (scan_lines text) w) ], w))

-- A step of the process. Either side may move whenever it can.
module _ (D : Database) where
  pub data Step (s : State) (t : State) : Type 0 where
    updated :
        (line : Text) (lines : List Text) (v : Process)
        → s.exited ≡ false
        → s.worker ≡ running (line ∷ lines)
        → update D (trim_space line) s.process ≡ (done tt, v)
        → t ≡ record s { worker = running lines; process = v }
        → Step s t
    -- `log.Fatal` ends the process: no deferred call runs.
    update_fatal :
        (line : Text) (lines : List Text) (v : Process)
        → s.exited ≡ false
        → s.worker ≡ running (line ∷ lines)
        → update D (trim_space line) s.process ≡ (fatal, v)
        → t ≡ record s { process = v; exited = true }
        → Step s t
    -- A panic runs the deferred send first.
    update_panic :
        (line : Text) (lines : List Text) (v : Process)
        → s.exited ≡ false
        → s.worker ≡ running (line ∷ lines)
        → update D (trim_space line) s.process ≡ (panic, v)
        → t ≡ record s { worker = panicking; process = v }
        → Step s t
    end_of_file :
        s.exited ≡ false → s.worker ≡ running [] → t ≡ record s { worker = returning } → Step s t
    -- The channel has no buffer: both sides move at once.
    send_on_return :
        s.exited ≡ false
        → s.worker ≡ returning
        → s.waiter ≡ waiting
        → t ≡ record s { worker = gone; waiter = finished }
        → Step s t
    send_on_panic :
        s.exited ≡ false
        → s.worker ≡ panicking
        → s.waiter ≡ waiting
        → t ≡ record s { worker = unwound; waiter = finished }
        → Step s t
    -- After its deferred calls a panic ends the process, as does the return of `main`.
    crash : s.exited ≡ false → s.worker ≡ unwound → t ≡ record s { exited = true } → Step s t
    main_returns :
        s.exited ≡ false → s.waiter ≡ finished → t ≡ record s { exited = true } → Step s t

  pub data Reach (s : State) : State → Type 0 where
    here : Reach s s
    next : {t u : State} → Reach s t → Step t u → Reach s u
