-- ===== src/Automation/Permission/Transactions.antt =====
-- The transactions of a run: one for each name, in the order of the file, each of them closed.
use koko.Base.{
  ◌≢◌, true, false, ap, inl, inr, ◌⊎◌, not, ◌&&◌, Bool-cases, ◌≡◌, refl, List, [], ◌∷◌, ◌++◌, map,
  some, Bool, arith,
}
use koko.Go.Text.{Text}
use koko.Go.Lines.{scan_lines, trim_space}
use koko.Ini.{IniFile}
use koko.Automation.Permission.{
  dsn, config_of, sql_open, connect, get_ip, begin, prepare, exec, rollback, commit, Queries,
  Database, Process, Exit, done, fatal, panic, update, update_all,
}

-- The calls of an update that comes to its `Commit`, and of several, in front of those before. What
-- the database answers to them is told by `accepted`.
abbrev pub committed : Text → Queries → Queries
committed name h = commit ∷ exec name ∷ prepare ∷ begin ∷ h

abbrev pub committed_all : List Text → Queries → Queries
committed_all [] h = h
committed_all (name ∷ names) h = committed_all names (committed name h)

module _ (D : Database) where
  -- The database reports no error for any of the four calls of the update.
  abbrev pub accepted : Text → Queries → Bool
  accepted name h =
      not (D.begin_fails h)
      && not (D.prepare_fails (begin ∷ h))
      && not (D.exec_fails (prepare ∷ begin ∷ h) name)
      && not (D.commit_fails (exec name ∷ prepare ∷ begin ∷ h))

  -- Likewise for the updates of several names, one after the other.
  abbrev pub Accepted : List Text → Queries → Type 0
  Accepted [] h = Unit
  Accepted (name ∷ names) h = (accepted name h ≡ true) × Accepted names (committed name h)

  -- How an update that did not commit ended, its calls, and the one that was refused: it was rolled
  -- back after a statement that could not be prepared or executed, or its commit failed, or no
  -- transaction was begun.
  abbrev pub Aborted : Text → Queries → Exit (Unit {0}) → Queries → Type 0
  Aborted name h r q =
      ((r ≡ fatal) × (q ≡ rollback ∷ prepare ∷ begin ∷ h) × (D.prepare_fails (begin ∷ h) ≡ true))
      ⊎ ((r ≡ fatal)
          × (q ≡ rollback ∷ exec name ∷ prepare ∷ begin ∷ h)
          × (D.exec_fails (prepare ∷ begin ∷ h) name ≡ true))
      ⊎ ((r ≡ fatal)
          × (q ≡ committed name h)
          × (D.commit_fails (exec name ∷ prepare ∷ begin ∷ h) ≡ true))
      ⊎ ((r ≡ panic) × (q ≡ begin ∷ h) × (D.begin_fails h ≡ true))

  pub update_cases :
      (name : Text) (w : Process)
      → w.err ≡ false
      → ((accepted name w.queries ≡ true)
          × (update D name w ≡ (done tt, record w { queries = committed name w.queries })))
        ⊎ Aborted name w.queries (update D name w).0 (update D name w).1.queries
  unfolding update
  update_cases name w clear = elim (Bool-cases (accepted name w.queries)) [
    | inl all ↦ inl (all, ground arith)
    | inr some_fails ↦ inr (ground arith)
  ]

-- Where a run over names ended: after all of them, each accepted by the database in every call and
-- committed, or at one that was aborted, with those before it accepted and committed and those behind
-- it not begun.
abbrev pub Ran : Database → List Text → Queries → Exit (Unit {0}) → Queries → Type 0
Ran D names h r q =
    ((r ≡ done tt) × (q ≡ committed_all names h) × Accepted D names h)
    ⊎ ((before : List Text) × (name : Text) × (behind : List Text) × (names
          ≡ before ++ (name ∷ behind))
        × Accepted D before h
        × Aborted D name (committed_all before h) r q)

Ran-cons :
    (D : Database) (n : Text) (names : List Text) (h : Queries) (r : Exit (Unit {0})) (q : Queries)
    → accepted D n h ≡ true
    → Ran D names (committed n h) r q
    → Ran D (n ∷ names) h r q
Ran-cons D n names h r q ok (inl (e, sent, all)) = inl (e, sent, (ok, all))
Ran-cons D n names h r q ok (inr (before, name, behind, e, all, stopped)) =
    inr (n ∷ before, name, behind, ap (◌∷◌ n) e, (ok, all), stopped)

module _ (D : Database) (line : Text) (lines : List Text) (w : Process) where
  update_all_next :
      {v : Process}
      → update D (trim_space line) w ≡ (done tt, v)
      → update_all D (line ∷ lines) w ≡ update_all D lines v
  unfolding update_all
  update_all_next e = ground arith

  update_all_stop :
      Aborted D
        (trim_space line)
        w.queries
        (update D (trim_space line) w).0
        (update D (trim_space line) w).1.queries
      → update_all D (line ∷ lines) w ≡ update D (trim_space line) w
  unfolding update_all
  update_all_stop stopped = ground arith

-- The lines are run in order, trimmed, one transaction each, until one is aborted.
pub update_all-Ran :
    (D : Database) (lines : List Text) (w : Process)
    → w.err ≡ false
    → Ran D
        (map trim_space lines)
        w.queries
        (update_all D lines w).0
        (update_all D lines w).1.queries
unfolding update_all
update_all-Ran D [] w clear = inl (refl, refl, tt)
update_all-Ran D (line ∷ lines) w clear = elim (update_cases D (trim_space line) w clear) [
  | inl (ok, next) ↦ rw (update_all_next D line lines w next) (
      Ran-cons D (trim_space line) (map trim_space lines) w.queries _ _ ok (
        update_all-Ran D lines (record w { queries = committed (trim_space line) w.queries })
          clear))
  | inr stopped ↦
      rw (update_all_stop D line lines w stopped)
        (inr ([], trim_space line, map trim_space lines, refl, tt, stopped))
]

-- Whether the last transaction that was begun is still open.
abbrev pub is_open : Queries → Bool
is_open [] = false
is_open (begin ∷ h) = true
is_open (commit ∷ h) = false
is_open (rollback ∷ h) = false
is_open (_ ∷ h) = is_open h

is_open-committed_all :
    (names : List Text) (h : Queries) → is_open h ≡ false → is_open (committed_all names h) ≡ false
is_open-committed_all [] h e = e
is_open-committed_all (n ∷ names) h e = is_open-committed_all names (committed n h) refl

Ran-is_open :
    (D : Database) (names : List Text) (h : Queries) (r : Exit (Unit {0})) (q : Queries)
    → is_open h ≡ false
    → Ran D names h r q
    → r ≢ panic
    → is_open q ≡ false
Ran-is_open D names h r q e (inl all) ne = rw all.1 (is_open-committed_all names h e)
Ran-is_open D names h r q e (inr (before, name, behind, split, all, stopped)) ne =
    ground (arith, is_open-committed_all before h e)

module _ (D : Database) (file : IniFile) (content : Text) (w : Process) where
  -- The names of the file, trimmed.
  abbrev pub names : List Text
  names = map trim_space (scan_lines content)

  abbrev pub result : Exit (Unit {0}) × Process
  result = connect D (some file) (some content) w

  module _ (opens : (h : Queries) (t : Text) → D.open_fails h t ≡ false) where
    abbrev opened : Process
    opened = record { err = false; queries = sql_open (dsn (config_of file)) ∷ w.queries }

    connect-eq-update_all : result ≡ update_all D (scan_lines content) opened
    unfolding connect get_ip
    connect-eq-update_all = ground (arith, opens w.queries (dsn (config_of file)))

    -- With a server that opens, `Connect` updates the trimmed lines of the file in their order, one
    -- transaction each. Either it returns, and the database has reported no error for any call of any
    -- name, the commits included, or it ends at a name with a refused call: by `log.Fatal`, rolled
    -- back if the statement was refused, or by a panic if `Begin` was. Then no call of a name before
    -- that one was refused, and the names behind it are not begun.
    pub connect-Ran :
        Ran D names (sql_open (dsn (config_of file)) ∷ w.queries) result.0 result.1.queries
    connect-Ran = rw connect-eq-update_all (update_all-Ran D (scan_lines content) opened refl)

    -- With a server that opens, a run that starts with no transaction open and does not panic
    -- leaves none open.
    pub connect_closes :
        is_open w.queries ≡ false → result.0 ≢ panic → is_open result.1.queries ≡ false
    connect_closes e ne = Ran-is_open D names _ _ _ e connect-Ran ne

-- Where the package's error is nil and `Begin` fails, the error that is tested is the nil one: the
-- update panics, and the run with it, before any later name.
pub update_begin_fails :
    (D : Database) (line : Text) (lines : List Text) (w : Process)
    → w.err ≡ false
    → D.begin_fails w.queries ≡ true
    → update_all D (line ∷ lines) w ≡ (panic, record w { queries = begin ∷ w.queries })
unfolding update_all update
update_begin_fails D line lines w clear fails = ground arith
