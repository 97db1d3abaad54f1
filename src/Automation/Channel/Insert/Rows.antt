-- ===== src/Automation/Channel/Insert/Rows.antt =====
-- The rows that `Insert` asks for, and how it ends.
use koko.Base.{
  ◌≡◌, refl, ap, List, [], ◌∷◌, ◌++◌, some, Bool, true, false, not, ◌&&◌, arith, Bool-cases, inl,
  inr, ◌⊎◌,
}
use koko.Go.Text.{Text, bytes}
use koko.Ini.{IniFile}
use koko.Automation.Permission.{Exit, done, fatal, panic, dsn, config_of}
use koko.Automation.Channel.Insert.{
  Row, sql_open, begin, prepare, rollback, commit, Calls, exec, Server, Client, row, insert_one,
  insert_all, insert,
}

-- The row asked for: a number that is drawn behind `Prepare`, the name as the telephone number, and
-- fixed words, also where `Insert` has a name and an age as arguments.
abbrev pub row_of : Server → Text → Calls → Row
row_of S ho h = record {
  id = S.intn (prepare ∷ begin ∷ h);
  name = bytes "name";
  age = bytes "age";
  job = bytes "Linux";
  kid_id = 5;
  tel = ho;
  relation = bytes "CS";
}

module _ (S : Server) where
  -- The calls that store one row, and several.
  abbrev pub stored : Text → Calls → Calls
  stored ho h = commit ∷ exec (row_of S ho h) ∷ prepare ∷ begin ∷ h

  abbrev pub stored_all : List Text → Calls → Calls
  stored_all [] h = h
  stored_all (ho ∷ hos) h = stored_all hos (stored ho h)

  -- The server refuses none of them.
  abbrev pub taken : Text → Calls → Bool
  taken ho h =
      not (S.begin_fails h)
      && not (S.prepare_fails (begin ∷ h))
      && not (S.exec_fails (prepare ∷ begin ∷ h) (row_of S ho h))
      && not (S.commit_fails (exec (row_of S ho h) ∷ prepare ∷ begin ∷ h))

  abbrev pub Taken : List Text → Calls → Type 0
  Taken [] h = Unit
  Taken (ho ∷ hos) h = (taken ho h ≡ true) × Taken hos (stored ho h)

  -- One of them is refused.
  abbrev pub Refused : Text → Calls → Exit (Unit {0}) → Calls → Type 0
  Refused ho h r q =
      ((r ≡ fatal) × (q ≡ rollback ∷ prepare ∷ begin ∷ h) × (S.prepare_fails (begin ∷ h) ≡ true))
      ⊎ ((r ≡ fatal)
          × (q ≡ rollback ∷ exec (row_of S ho h) ∷ prepare ∷ begin ∷ h)
          × (S.exec_fails (prepare ∷ begin ∷ h) (row_of S ho h) ≡ true))
      ⊎ ((r ≡ fatal)
          × (q ≡ stored ho h)
          × (S.commit_fails (exec (row_of S ho h) ∷ prepare ∷ begin ∷ h) ≡ true))
      ⊎ ((r ≡ panic) × (q ≡ begin ∷ h) × (S.begin_fails h ≡ true))

  insert_one_cases :
      (ho : Text) (w : Client)
      → w.err ≡ false
      → ((taken ho w.calls ≡ true)
          × (insert_one S ho w ≡ (done tt, record w { calls = stored ho w.calls })))
        ⊎ Refused ho w.calls (insert_one S ho w).0 (insert_one S ho w).1.calls
  unfolding insert_one row
  insert_one_cases ho w clear = elim (Bool-cases (taken ho w.calls)) [
    | inl all ↦ inl (all, ground arith)
    | inr some_fails ↦ inr (ground arith)
  ]

  -- How the loop ends over the names that it receives.
  abbrev pub Stores : List Text → Calls → Exit (Unit {0}) → Calls → Type 0
  Stores hos h r q =
      ((r ≡ panic) × (q ≡ stored_all hos h) × Taken hos h)
      ⊎ ((before : List Text) × (ho : Text) × (behind : List Text) × (hos ≡ before ++ (ho ∷ behind))
          × Taken before h
          × Refused ho (stored_all before h) r q)

  Stores-cons :
      (ho : Text) (hos : List Text) (h : Calls) (r : Exit (Unit {0})) (q : Calls)
      → taken ho h ≡ true
      → Stores hos (stored ho h) r q
      → Stores (ho ∷ hos) h r q
  Stores-cons ho hos h r q ok (inl (e, sent, all)) = inl (e, sent, (ok, all))
  Stores-cons ho hos h r q ok (inr (before, name, behind, e, all, stopped)) =
      inr (ho ∷ before, name, behind, ap (◌∷◌ ho) e, (ok, all), stopped)

  module _ (ho : Text) (hos : List Text) (w : Client) where
    insert_all_next :
        {v : Client}
        → insert_one S ho w ≡ (done tt, v)
        → insert_all S (ho ∷ hos) w ≡ insert_all S hos v
    unfolding insert_all
    insert_all_next e = ground arith

    insert_all_stop :
        Refused ho w.calls (insert_one S ho w).0 (insert_one S ho w).1.calls
        → insert_all S (ho ∷ hos) w ≡ insert_one S ho w
    unfolding insert_all
    insert_all_stop stopped = ground arith

  insert_all-Stores :
      (hos : List Text) (w : Client)
      → w.err ≡ false
      → Stores hos w.calls (insert_all S hos w).0 (insert_all S hos w).1.calls
  unfolding insert_all
  insert_all-Stores [] w clear = inl (refl, refl, tt)
  insert_all-Stores (ho ∷ hos) w clear = elim (insert_one_cases ho w clear) [
    | inl (ok, next) ↦ rw (insert_all_next ho hos w next) (
        Stores-cons ho hos w.calls _ _ ok
          (insert_all-Stores hos (record w { calls = stored ho w.calls }) clear))
    | inr stopped ↦ rw (insert_all_stop ho hos w stopped) (inr ([], ho, hos, refl, tt, stopped))
  ]

  -- With a server that opens, `Insert` never comes back. It stores a row for each name that it
  -- receives, in their order, one transaction each, of which the server refuses no call, until the
  -- channel is empty and `Wait` panics; or it ends before, at a name with a refused call, by
  -- `log.Fatal`, rolled back if the statement was refused, or by a panic if `Begin` was. Each row has
  -- the name as its telephone number, and the words "name" and "age" in place of the arguments.
  pub insert-Stores :
      (ini : IniFile) (received : List Text) (w : Client)
      → ((h : Calls) (t : Text) → S.open_fails h t ≡ false)
      → let (r, v) = insert S (some ini) received w in
        Stores received (sql_open (dsn (config_of ini)) ∷ w.calls) r v.calls
  unfolding insert
  insert-Stores ini received w opens = rw (opens w.calls (dsn (config_of ini))) (
      insert_all-Stores received
        (record { err = false; calls = sql_open (dsn (config_of ini)) ∷ w.calls }) refl)
