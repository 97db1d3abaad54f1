-- ===== src/Automation/Channel.antt =====
-- Automation-IP-Handle/iph/ip-not.go: `Start` and the goroutines `Get_IP`, which fill a channel of
-- three names. The file does not compile as it stands. It is read with its imports and the brace at
-- the end of `Get_IP` added, with `sql` in `Insert` a variable of its own, with
-- `strconv.FormatInt(GetTime(), 10)` and a declared `myname`, and apart from ip-permission.go, whose
-- `Get_IP` and package it shares.
pub mod Bounds
pub mod Runs
pub mod Crash
pub mod Insert
use koko.Base.{
  ℕ, List, [], ◌∷◌, ◌++◌, ◌≡◌, Option, none, some, Bool, true, false, ◌==◌, ◌+◌, length,
  if◌then◌else◌,
}
use koko.Go.Text.{Text}
use koko.Go.Lines.{scan_lines, trim_space}

-- Where a goroutine stands: at the call of `Lock`, at the test of the channel's length, at the
-- opening of the file, at the next call of `Scan` with the lines that are left, at the send of a
-- name, and at the call of `Unlock` behind it. `Broadcast` on a copy wakes nobody.
pub data Pc : Type 0 where
  lock check opening : Pc
  scan : List Text → Pc
  send : Text → List Text → Pc
  unlock : List Text → Pc

-- `co` is passed by value: each goroutine locks a copy of its own.
pub record Worker : Type 0 where
  pub pc : Pc
  pub locked : Bool

abbrev pub new_worker : Worker
new_worker = record { pc = lock; locked = false }

-- What a goroutine's next step does: it waits, moves on and leaves a channel, or ends the process,
-- by a panic, a fatal error or `log.Fatal`.
pub data Outcome : Type 0 where
  blocked : Outcome
  moved : Worker → List Text → Outcome
  crashed : Outcome

-- `ip = make(chan string, 3)`
abbrev pub capacity : ℕ
capacity = 3

-- The steps of `Get_IP`; `none` is a file that cannot be opened, and the channel's oldest name stands
-- first. `l` is a `sync.Cond` with no lock, so that `Wait` dereferences nil; `Unlock` of a mutex that
-- is not locked is a fatal error.
abbrev pub try_lock : Bool → List Text → Outcome
try_lock true ip = blocked
try_lock false ip = moved (record { pc = check; locked = true }) ip

abbrev pub try_open : Option Text → Bool → List Text → Outcome
try_open none k ip = crashed
try_open (some content) k ip = moved (record { pc = scan (scan_lines content); locked = k }) ip

abbrev pub try_unlock : List Text → Bool → List Text → Outcome
try_unlock lines true ip = moved (record { pc = scan lines; locked = false }) ip
try_unlock lines false ip = crashed

-- `file` is what `Open` gives at this step.
module _ (file : Option Text) where
  unfoldable pub advance_at : Pc → Bool → List Text → Outcome
  advance_at lock k ip = try_lock k ip
  advance_at check k ip =
      if length ip == capacity then crashed else moved (record { pc = opening; locked = k }) ip
  advance_at opening k ip = try_open file k ip
  advance_at (scan []) k ip = moved (record { pc = lock; locked = k }) ip
  advance_at (scan (line ∷ lines)) k ip =
      moved (record { pc = send (trim_space line) lines; locked = k }) ip
  advance_at (send line lines) k ip =
      if length ip == capacity
      then blocked
      else moved (record { pc = unlock lines; locked = k }) (ip ++ (line ∷ []))
  advance_at (unlock lines) k ip = try_unlock lines k ip

  abbrev pub advance : Worker → List Text → Outcome
  advance w ip = advance_at w.pc w.locked ip

-- Whether a step opens the file.
abbrev pub opens : Pc → ℕ
opens opening = 1
opens _ = 0

-- The process: its goroutines, the oldest first, the channel, how many files are open, and whether
-- the process has ended. `defer file.Close()` closes none of them: the call runs when `Get_IP`
-- returns, and its loop ends by `log.Fatal` at most.
pub record State : Type 0 where
  pub workers : List Worker
  pub ip : List Text
  pub opened : ℕ
  pub ended : Bool

abbrev pub start : State
start = record { workers = []; ip = []; opened = 0; ended = false }

-- What `os.Open` and the file give depends on how many files are open.
module _ (file : ℕ → Option Text) where
  -- `Start` is in its first loop, which has no end: it starts goroutines `Get_IP`, and never one
  -- that takes a name from the channel.
  pub data Step (s : State) (t : State) : Type 0 where
    spawned : s.ended ≡ false → t ≡ record s { workers = s.workers ++ (new_worker ∷ []) } → Step s t
    worker_moved :
        (before after : List Worker) (w v : Worker) (ip : List Text)
        → s.ended ≡ false
        → s.workers ≡ before ++ (w ∷ after)
        → advance (file s.opened) w s.ip ≡ moved v ip
        → t ≡ record s { workers = before ++ (v ∷ after); ip = ip; opened = s.opened + opens w.pc }
        → Step s t
    worker_crashed :
        (before after : List Worker) (w : Worker)
        → s.ended ≡ false
        → s.workers ≡ before ++ (w ∷ after)
        → advance (file s.opened) w s.ip ≡ crashed
        → t ≡ record s { ended = true }
        → Step s t

  pub data Reach (s : State) : State → Type 0 where
    here : Reach s s
    next : {t u : State} → Reach s t → Step t u → Reach s u
