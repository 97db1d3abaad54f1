-- ===== src/Automation/Revice/Completion.antt =====
-- What it means that `Connect` says that the work is done.
use koko.Base.{◌≡◌, ◌≢◌, refl, sym, ◌∙◌, ap, List, [], ◌∷◌, ◌++◌, map, true, false, arith}
use mathlib.Core.Path.{subst}
use mathlib.Core.List.{append_assoc, append-nil}
use koko.Go.Text.{Text}
use koko.Go.Lines.{trim_space}
use koko.Automation.Permission.{
  begin, Queries, Database, Process, done, panic, update, prepare, exec,
}
use koko.Automation.Permission.Transactions.{committed, committed_all, accepted, Accepted}
use koko.Automation.Revice.{
  Worker, running, returning, panicking, gone, unwound, finished, State, start, Step, updated,
  update_fatal, update_panic, end_of_file, send_on_return, send_on_panic, crash, main_returns,
  Reach, here, next,
}

committed_all-append :
    (names : List Text) (n : Text) (h : Queries)
    → committed_all (names ++ (n ∷ [])) h ≡ committed n (committed_all names h)
committed_all-append [] n h = refl
committed_all-append (m ∷ names) n h = committed_all-append names n (committed m h)

Accepted-append :
    (D : Database) (names : List Text) (n : Text) (h : Queries)
    → Accepted D names h
    → accepted D n (committed_all names h) ≡ true
    → Accepted D (names ++ (n ∷ [])) h
Accepted-append D [] n h all ok = (ok, tt)
Accepted-append D (m ∷ names) n h all ok =
    (all.0, Accepted-append D names n (committed m h) all.1 ok)

update_done :
    (D : Database) (name : Text) (w v : Process)
    → w.err ≡ false
    → update D name w ≡ (done tt, v)
    → (accepted D name w.queries ≡ true) × (v ≡ record w { queries = committed name w.queries })
unfolding update
update_done D name w v clear e = ground arith

panic_needs_begin :
    (D : Database) (name : Text) (w v : Process)
    → w.err ≡ false
    → update D name w ≡ (panic, v)
    → D.begin_fails w.queries ≡ true
unfolding update
panic_needs_begin D name w v clear e = ground arith

update_err : (D : Database) (name : Text) (w : Process) → (update D name w).1.err ≡ w.err
unfolding update
update_err D name w = ground arith

module _ (D : Database) (calm : (h : Queries) → D.begin_fails h ≡ false) (names : List Text)
    (h : Queries) where
  -- What the worker has done, by where it stands.
  abbrev Done : Worker → Queries → Type 0
  Done (running lines) q =
      (before : List Text) × (names ≡ before ++ map trim_space lines)
      × (q ≡ committed_all before h)
      × Accepted D before h
  Done returning q = (q ≡ committed_all names h) × Accepted D names h
  Done gone q = (q ≡ committed_all names h) × Accepted D names h
  Done panicking q = ⊥
  Done unwound q = ⊥

  record Inv (s : State) : Type 0 where
    clear : s.process.err ≡ false
    work : s.exited ≡ false → Done s.worker s.process.queries
    wait : s.waiter ≡ finished → (s.worker ≡ gone) × Done gone s.process.queries

  worked :
      {s : State} {k : Worker} → Inv s → s.exited ≡ false → s.worker ≡ k → Done k s.process.queries
  worked {s} i live at = subst (λ k. Done k s.process.queries) at (i.work live)

  one_more :
      (line : Text) (lines : List Text) (w v : Process)
      → w.err ≡ false
      → update D (trim_space line) w ≡ (done tt, v)
      → Done (running (line ∷ lines)) w.queries
      → Done (running lines) v.queries
  one_more line lines w v clear e (before, split, so_far, all) =
      let (ok, more) = update_done D (trim_space line) w v clear e in
      (
        before ++ (trim_space line ∷ []),
        split ∙ sym (append_assoc before (trim_space line ∷ []) (map trim_space lines)),
        ap (λ p. p.queries) more
            ∙ ap (committed (trim_space line)) so_far
            ∙ sym (committed_all-append before (trim_space line) h),
        Accepted-append D before (trim_space line) h all
            (ap (accepted D (trim_space line)) (sym so_far) ∙ ok),
      )

  all_done : {q : Queries} → Done (running []) q → Done returning q
  all_done (before, split, so_far, all) =
      let whole : before ≡ names = sym (split ∙ append-nil before) in
      (so_far ∙ ap (λ ns. committed_all ns h) whole, subst (λ ns. Accepted D ns h) whole all)

  not_done : {s : State} {k : Worker} → Inv s → s.worker ≡ k → k ≢ gone → s.waiter ≢ finished
  not_done i at ne fin = ne (sym at ∙ (i.wait fin).0)

  Step-Inv : {s t : State} → Step D s t → Inv s → Inv t
  Step-Inv {s} (updated line lines v live at e next_state) i = rw next_state (record {
    clear = ap (λ p. p.1.err) (sym e) ∙ update_err D (trim_space line) s.process ∙ i.clear;
    work = λ _. one_more line lines s.process v i.clear e (worked i live at);
    wait = λ fin. absurd (not_done i at (λ q. cc) fin);
  })
  Step-Inv {s} (update_fatal line lines v live at e next_state) i = rw next_state (record {
    clear = ap (λ p. p.1.err) (sym e) ∙ update_err D (trim_space line) s.process ∙ i.clear;
    work = λ q. cc;
    wait = λ fin. absurd (not_done i at (λ q. cc) fin);
  })
  Step-Inv {s} (update_panic line lines v live at e next_state) i =
      absurd
        (cc (panic_needs_begin D (trim_space line) s.process v i.clear e, calm s.process.queries))
  Step-Inv {s} (end_of_file live at next_state) i = rw next_state (record {
    clear = i.clear;
    work = λ _. all_done (worked i live at);
    wait = λ fin. absurd (not_done i at (λ q. cc) fin);
  })
  Step-Inv {s} (send_on_return live at m next_state) i = rw next_state (record {
    clear = i.clear;
    work = λ _. worked i live at;
    wait = λ fin. (refl, worked i live at);
  })
  Step-Inv {s} (send_on_panic live at m next_state) i = absurd (worked i live at)
  Step-Inv {s} (crash live at next_state) i = absurd (worked i live at)
  Step-Inv (main_returns live m next_state) i =
      rw next_state (record { clear = i.clear; work = λ q. cc; wait = i.wait })

  Reach-Inv : {s t : State} → Reach D s t → Inv s → Inv t
  Reach-Inv here i = i
  Reach-Inv (next before step) i = Step-Inv step (Reach-Inv before i)

start-Inv :
    (D : Database) (calm : (h : Queries) → D.begin_fails h ≡ false) (lines : List Text)
    (w : Process)
    → w.err ≡ false
    → Inv D calm (map trim_space lines) w.queries (start lines w)
start-Inv D calm lines w clear = record {
  clear = clear;
  work = λ _. ([], refl, refl, tt);
  wait = λ e. cc;
}

pub finished_all_committed :
    (D : Database) (lines : List Text) (w : Process) (t : State)
    → ((h : Queries) → D.begin_fails h ≡ false)
    → w.err ≡ false
    → Reach D (start lines w) t
    → t.waiter ≡ finished
    → (t.process.queries ≡ committed_all (map trim_space lines) w.queries)
      × Accepted D (map trim_space lines) w.queries
finished_all_committed D lines w t calm clear run fin =
    ((Reach-Inv D calm _ _ run (start-Inv D calm lines w clear)).wait fin).1

module _ (D : Database) (begins : (h : Queries) → D.begin_fails h ≡ false)
    (prepares : (h : Queries) → D.prepare_fails h ≡ false)
    (executes : (h : Queries) (n : Text) → D.exec_fails h n ≡ false)
    (commits : (h : Queries) → D.commit_fails h ≡ false) where
  commits_one :
      (name : Text) (w : Process)
      → w.err ≡ false
      → update D name w ≡ (done tt, record w { queries = committed name w.queries })
  unfolding update
  commits_one name w clear = ground (
    arith,
    begins w.queries,
    prepares (begin ∷ w.queries),
    executes (prepare ∷ begin ∷ w.queries) name,
    commits (exec name ∷ prepare ∷ begin ∷ w.queries),
  )

  runs_on :
      (s : State) (lines : List Text) (w : Process)
      → w.err ≡ false
      → Reach D s (start lines w)
      → (t : State) × Reach D s t × (t.waiter ≡ finished)
  runs_on s [] w clear run =
      (_, next (next run (end_of_file refl refl refl)) (send_on_return refl refl refl refl), refl)
  runs_on s (line ∷ lines) w clear run =
      runs_on s lines _ clear
        (next run (updated line lines _ refl refl (commits_one (trim_space line) w clear) refl))

  -- On a database that accepts every call, from every file there is a run in which `Connect` is told
  -- that the work is done, with every name of the file committed.
  pub finishes :
      (lines : List Text) (w : Process)
      → w.err ≡ false
      → (t : State) × Reach D (start lines w) t
        × (t.waiter ≡ finished)
        × (t.process.queries ≡ committed_all (map trim_space lines) w.queries)
  finishes lines w clear =
      let (t, run, fin) = runs_on _ lines w clear here in
      (t, run, fin, (finished_all_committed D lines w t begins clear run fin).0)

panics :
    (D : Database) (name : Text) (w : Process)
    → w.err ≡ false
    → D.begin_fails w.queries ≡ true
    → update D name w ≡ (panic, record w { queries = begin ∷ w.queries })
unfolding update
panics D name w clear fails = ground arith

-- Where the package's error is nil and the first transaction cannot be begun, a run is possible in
-- which `Connect` is told that the work is done and no name was updated: the panic of `Update` runs
-- the deferred send.
pub finished_without_update :
    (D : Database) (line : Text) (lines : List Text) (w : Process)
    → w.err ≡ false
    → D.begin_fails w.queries ≡ true
    → (t : State) × Reach D (start (line ∷ lines) w) t
      × (t.waiter ≡ finished)
      × (t.process.queries ≡ begin ∷ w.queries)
finished_without_update D line lines w clear fails = (
  _,
  next
      (next here
        (update_panic line lines _ refl refl (panics D (trim_space line) w clear fails) refl))
      (send_on_panic refl refl refl refl),
  refl,
  refl,
)
