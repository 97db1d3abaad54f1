-- ===== src/Automation/ChannelTests.antt =====
-- ip-not.go at a concrete file.
use koko.Base.{
  All, length, ◌≢◌, zero, suc, none, ◌≡◌, arith, List, ℕ, ◌≤◌, refl, [], ◌∷◌, Option, some, true,
  false,
}
use koko.Go.Text.{Text, bytes}
use koko.Go.Lines.{scan_lines, scan_from, trim_space}
use koko.Automation.Channel.{
  check, opening, scan, send, unlock, Worker, new_worker, advance_at, State, start, spawned,
  worker_moved, Reach, here, next,
}
use koko.Ini.{IniFile}
use koko.Automation.Permission.{config_of, dsn, panic}
use koko.Automation.Channel.Insert.{sql_open, Server, Client, insert_one, insert_all, insert}
use koko.Automation.Channel.Insert.Rows.{Stores, insert-Stores}
use koko.Automation.Channel.Bounds.{names, channel_bound}
use koko.Automation.Channel.Crash.{crash_reachable}

-- Two names.
abbrev file : Option Text
file = some (bytes "li \nwang\n")

-- A system on which the third `Open` is refused.
abbrev files : ℕ → Option Text
files zero = file
files (suc zero) = file
files (suc (suc n)) = none

abbrev locked : Worker
locked = record { pc = check; locked = true }

-- The first goroutine has sent its first name, and a second one has started.
abbrev sent : State
sent = record {
  workers = record { pc = unlock (bytes "wang" ∷ []); locked = true } ∷ new_worker ∷ [];
  ip = bytes "li" ∷ [];
  opened = 1;
  ended = false;
}

reached : Reach files start sent
unfolding advance_at scan_lines scan_from trim_space
reached =
    next
      (next
        (next
          (next
            (next
              (next (next here (spawned refl refl))
                (worker_moved [] [] new_worker locked [] refl refl refl refl))
              (worker_moved [] [] locked (record locked { pc = opening }) [] refl refl refl refl))
            (worker_moved [] [] (record locked { pc = opening })
              (record locked { pc = scan (bytes "li " ∷ bytes "wang" ∷ []) }) [] refl refl refl
              refl))
          (worker_moved [] [] _ (record locked { pc = send (bytes "li") (bytes "wang" ∷ []) }) []
            refl refl refl refl))
        (worker_moved [] [] _ (record locked { pc = unlock (bytes "wang" ∷ []) }) (bytes "li" ∷ [])
          refl refl refl refl))
      (spawned refl refl)

-- A server that takes everything.
abbrev willing : Server
willing = record {
  open_fails = λ h t. false;
  begin_fails = λ h. false;
  prepare_fails = λ h. false;
  exec_fails = λ h r. false;
  commit_fails = λ h. false;
  intn = λ h. 42;
}

abbrev ini : IniFile
ini s k default = default

abbrev client : Client
client = record { err = false; calls = [] }

abbrev received : List Text
received = bytes "li" ∷ bytes "wang" ∷ []

insert-Stores_example :
    let (r, v) = insert willing (some ini) received client in
    Stores willing received (sql_open (dsn (config_of ini)) ∷ []) r v.calls
insert-Stores_example = insert-Stores willing ini received client (λ h t. refl)

both : (insert willing (some ini) received client).0 ≡ panic
unfolding insert insert_all insert_one
both = refl

files_end : (n : ℕ) → 2 ≤ n → files n ≡ none
files_end zero small = let bad : ⊥ = omega (arith, small) in absurd bad
files_end (suc zero) small = let bad : ⊥ = omega (arith, small) in absurd bad
files_end (suc (suc n)) small = refl

crash_reachable_example :
    (sent.opened ≤ 2) × (sent.ended ≡ false → (t : State) × Reach files sent t × (t.ended ≡ true))
crash_reachable_example = crash_reachable files 2 files_end reached

-- Of every name in the file, and so of those in the channel: the name is not empty.
named : (n : ℕ) → All (λ t. t ≢ []) (names (files n))
unfolding scan_lines scan_from trim_space
named zero = ((λ e. cc), ((λ e. cc), tt))
named (suc zero) = ((λ e. cc), ((λ e. cc), tt))
named (suc (suc n)) = tt

channel_bound_example : All (λ t. t ≢ []) sent.ip × (length sent.ip ≤ 3)
channel_bound_example = channel_bound (λ t. t ≢ []) files named reached
