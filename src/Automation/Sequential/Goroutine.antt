-- ===== src/Automation/Sequential/Goroutine.antt =====
-- The updates in a goroutine (ip-permission-revice-1.go) against those without one.
use mathlib.Core.Path.{subst}
use koko.Base.{
  Option, none, Bool-cases, ◌≡◌, ◌≢◌, refl, sym, ◌∙◌, ◌⊎◌, inl, inr, List, [], ◌∷◌, some, true,
  false, arith,
}
use koko.Go.Text.{Text}
use koko.Go.Lines.{scan_lines, trim_space}
use koko.Automation.Permission.{Database, Process, Exit, done, fatal, panic, update_all}
use koko.Automation.Permission
use koko.Ini.{IniFile}
use koko.Automation.Sequential.{connect}
use koko.Automation.Revice.{
  Worker, running, returning, panicking, gone, unwound, waiting, finished, State, start, launch,
  Step, updated, update_fatal, update_panic, end_of_file, send_on_return, send_on_panic, crash,
  main_returns, Reach, here, next,
}

update_all-end : (D : Database) (w : Process) → update_all D [] w ≡ (done tt, w)
unfolding update_all
update_all-end D w = refl

module _ (D : Database) (line : Text) (lines : List Text) (w v : Process) where
  update_all-done :
      Permission.update D (trim_space line) w ≡ (done tt, v)
      → update_all D (line ∷ lines) w ≡ update_all D lines v
  unfolding update_all
  update_all-done e = ground arith

  update_all-fatal :
      Permission.update D (trim_space line) w ≡ (fatal, v)
      → update_all D (line ∷ lines) w ≡ (fatal, v)
  unfolding update_all
  update_all-fatal e = ground arith

  update_all-panic :
      Permission.update D (trim_space line) w ≡ (panic, v)
      → update_all D (line ∷ lines) w ≡ (panic, v)
  unfolding update_all
  update_all-panic e = ground arith

-- `r` is what the loop over the lines comes to by itself.
module _ (D : Database) (r : Exit (Unit {0}) × Process) where
  -- Where the worker stands, it is on its way to `r`.
  abbrev Agrees : Worker → Process → Type 0
  Agrees (running lines) w = update_all D lines w ≡ r
  Agrees returning w = r ≡ (done tt, w)
  Agrees gone w = r ≡ (done tt, w)
  Agrees panicking w = r ≡ (panic, w)
  Agrees unwound w = r ≡ (panic, w)

  record Inv (s : State) : Type 0 where
    work : s.exited ≡ false → Agrees s.worker s.process
    told :
        s.waiter ≡ finished
        → ((s.worker ≡ gone) × (r ≡ (done tt, s.process)))
          ⊎ ((s.worker ≡ unwound) × (r ≡ (panic, s.process)))
    ended : s.exited ≡ true → s.waiter ≡ waiting → r ≡ (fatal, s.process)
    sent : s.worker ≡ unwound → s.waiter ≡ finished

  worked : {s : State} {k : Worker} → Inv s → s.exited ≡ false → s.worker ≡ k → Agrees k s.process
  worked {s} i live at = subst (λ k. Agrees k s.process) at (i.work live)

  not_told :
      {s : State} {k : Worker} → Inv s → s.worker ≡ k → k ≢ gone → k ≢ unwound → s.waiter ≢ finished
  not_told i at ne ne' fin = elim (i.told fin) [
    | inl (g, _) ↦ ne (sym at ∙ g)
    | inr (u, _) ↦ ne' (sym at ∙ u)
  ]

  Step-Inv : {s t : State} → Step D s t → Inv s → Inv t
  Step-Inv {s} (updated line lines v live at e next_state) i = rw next_state (record {
    work = λ _. sym (update_all-done D line lines s.process v e) ∙ worked i live at;
    told = λ fin. absurd (not_told i at (λ q. cc) (λ q. cc) fin);
    ended = λ out. cc;
    sent = λ q. cc;
  })
  Step-Inv {s} (update_fatal line lines v live at e next_state) i = rw next_state (record {
    work = λ q. cc;
    told = λ fin. absurd (not_told i at (λ q. cc) (λ q. cc) fin);
    ended = λ _ _. sym (worked i live at) ∙ update_all-fatal D line lines s.process v e;
    sent = λ q. cc;
  })
  Step-Inv {s} (update_panic line lines v live at e next_state) i = rw next_state (record {
    work = λ _. sym (worked i live at) ∙ update_all-panic D line lines s.process v e;
    told = λ fin. absurd (not_told i at (λ q. cc) (λ q. cc) fin);
    ended = λ out. cc;
    sent = λ q. cc;
  })
  Step-Inv {s} (end_of_file live at next_state) i = rw next_state (record {
    work = λ _. sym (worked i live at) ∙ update_all-end D s.process;
    told = λ fin. absurd (not_told i at (λ q. cc) (λ q. cc) fin);
    ended = λ out. cc;
    sent = λ q. cc;
  })
  Step-Inv {s} (send_on_return live at m next_state) i = rw next_state (record {
    work = λ _. worked i live at;
    told = λ _. inl (refl, worked i live at);
    ended = λ out. cc;
    sent = λ q. cc;
  })
  Step-Inv {s} (send_on_panic live at m next_state) i = rw next_state (record {
    work = λ _. worked i live at;
    told = λ _. inr (refl, worked i live at);
    ended = λ out. cc;
    sent = λ q. refl;
  })
  Step-Inv {s} (crash live at next_state) i = rw next_state (record {
    work = λ q. cc;
    told = i.told;
    ended = λ _ q. let fin = i.sent at in cc;
    sent = i.sent;
  })
  Step-Inv {s} (main_returns live m next_state) i =
      rw next_state (record { work = λ q. cc; told = i.told; ended = λ _ q. cc; sent = i.sent })

  Reach-Inv : {s t : State} → Reach D s t → Inv s → Inv t
  Reach-Inv here i = i
  Reach-Inv (next before step) i = Step-Inv step (Reach-Inv before i)

start-Inv :
    (D : Database) (lines : List Text) (w : Process) → Inv D (update_all D lines w) (start lines w)
start-Inv D lines w = record { work = λ _. refl; told = λ e. cc; ended = λ e. cc; sent = λ e. cc }

-- The version without a goroutine, from where the other one has launched its own.
abbrev Continues : Database → Exit State × Process → Exit (Unit {0}) × Process → Type 0
Continues D (done s, w) r = (lines : List Text) × (s ≡ start lines w) × (r ≡ update_all D lines w)
Continues D (fatal, w) r = r ≡ (fatal, w)
Continues D (panic, w) r = r ≡ (panic, w)

opened-Continues :
    (D : Database) (content : Option Text) (v : Process)
    → Continues D
        (elim content [ none ↦ fatal | some text ↦ done (start (scan_lines text) v) ], v)
        (Permission.get_ip D content v)
unfolding Permission.get_ip
opened-Continues D none v = refl
opened-Continues D (some text) v = (scan_lines text, refl, refl)

connect-Continues :
    (D : Database) (ini : Option IniFile) (content : Option Text) (w : Process)
    → Continues D (launch D ini content w) (connect D ini content w)
unfolding connect launch Permission.connect Permission.get_ip Permission.get_db
connect-Continues D none content w = refl
connect-Continues D (some ini) content w =
    elim (Bool-cases (D.open_fails w.queries (Permission.dsn (Permission.config_of ini)))) [
      | inl fails ↦ rw fails refl
      | inr opens ↦ rw opens (opened-Continues D content _)
    ]

-- `Get_DB` and `Connect` of ip-permission-revice-1.go, which has a goroutine, against `Connect` of
-- ip-permission-revice-2.go, which has none, and which the `main` of its file does not call. Where the
-- first ends before its goroutine reads a line, by `log.Fatal` or a panic, the second does too, after
-- the same calls. Else, however the two sides move: once the first is told that the work is done, the
-- calls made are those of the second, which then returns or panics; and where the first ends before,
-- the second ends too, by `log.Fatal` after the same calls.
pub goroutine-eq-connect :
    (D : Database) (ini : Option IniFile) (content : Option Text) (w v : Process)
    → let r = connect D ini content w in
      (launch D ini content w ≡ (fatal, v) → r ≡ (fatal, v))
      × (launch D ini content w ≡ (panic, v) → r ≡ (panic, v))
      × ((s t : State)
          → launch D ini content w ≡ (done s, v)
          → Reach D s t
          → (t.waiter ≡ finished → (r ≡ (done tt, t.process)) ⊎ (r ≡ (panic, t.process)))
            × (t.exited ≡ true → t.waiter ≡ waiting → r ≡ (fatal, t.process)))
goroutine-eq-connect D ini content w v = (
  λ e. subst (λ l. Continues D l (connect D ini content w)) e (connect-Continues D ini content w),
  λ e. subst (λ l. Continues D l (connect D ini content w)) e (connect-Continues D ini content w),
  λ s t e run.
      let (lines, at, same) =
        subst (λ l. Continues D l (connect D ini content w)) e
          (connect-Continues D ini content w) in
      let i =
        Reach-Inv D (update_all D lines v) (subst (λ s. Reach D s t) at run)
          (start-Inv D lines v) in
      (
        λ fin. elim (i.told fin) [ inl (_, e) ↦ inl (same ∙ e) | inr (_, e) ↦ inr (same ∙ e) ],
        λ out q. same ∙ i.ended out q,
      ),
)
