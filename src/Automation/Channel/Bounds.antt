-- ===== src/Automation/Channel/Bounds.antt =====
-- What is in the channel, whatever the order of the steps.
use koko.Base.{
  ℕ, Bool-cases, Bool, inl, inr, ◌==◌, ◌≤◌, ◌≡◌, List, [], ◌∷◌, ◌++◌, Option, none, some, true,
  false, map, arith, All, All-append, length, length-append,
}
use mathlib.Core.Path.{subst}
use koko.Go.Text.{Text}
use koko.Go.Lines.{scan_lines, trim_space}
use koko.Automation.Channel.{
  Pc, lock, check, opening, scan, send, unlock, Worker, new_worker, Outcome, moved, capacity,
  try_open, advance_at, advance, State, start, Step, spawned, worker_moved, worker_crashed, Reach,
  here, next,
}

-- The names in the file.
abbrev pub names : Option Text → List Text
names none = []
names (some content) = map trim_space (scan_lines content)

module _ {A : Type 0} (P : A → Type 0) where
  pub All_at : (xs : List A) (x : A) (ys : List A) → All P (xs ++ (x ∷ ys)) → P x
  All_at [] x ys h = h.0
  All_at (y ∷ xs) x ys h = All_at xs x ys h.1

  pub All_replace :
      (xs : List A) (x y : A) (ys : List A) → All P (xs ++ (x ∷ ys)) → P y → All P (xs ++ (y ∷ ys))
  All_replace [] x y ys h p = (p, h.1)
  All_replace (z ∷ xs) x y ys h p = (h.0, All_replace xs x y ys h.1 p)

module _ (P : Text → Type 0) where
  -- The names that a goroutine has read and not sent.
  abbrev Holds : Pc → Type 0
  Holds (scan lines) = All P (map trim_space lines)
  Holds (send line lines) = P line × All P (map trim_space lines)
  Holds (unlock lines) = All P (map trim_space lines)
  Holds _ = Unit

  record Inv (s : State) : Type 0 where
    bound : length s.ip ≤ capacity
    sent : All P s.ip
    held : All (λ w. Holds w.pc) s.workers

  abbrev Fine : Outcome → Type 0
  Fine (moved v ip) = (length ip ≤ capacity) × All P ip × Holds v.pc
  Fine _ = Unit

  module _ (file : Option Text) (good : All P (names file)) (ip : List Text)
      (small : length ip ≤ capacity) (sent : All P ip) where
    check-Fine : (k : Bool) → Fine (advance_at file check k ip)
    unfolding advance_at
    check-Fine k = elim (Bool-cases (length ip == capacity)) [
      | inl full ↦ rw full tt
      | inr room ↦ rw room (small, sent, tt)
    ]

    send-Fine :
        (line : Text) (lines : List Text) (k : Bool)
        → Holds (send line lines)
        → Fine (advance_at file (send line lines) k ip)
    unfolding advance_at
    send-Fine line lines k h = elim (Bool-cases (length ip == capacity)) [
      | inl full ↦ rw full tt
      | inr room ↦ rw room (
        ground (arith, length-append ip (line ∷ [])),
        All-append P ip (line ∷ []) sent (h.0, tt),
        h.1,
      )
    ]

    opening-Fine : (f : Option Text) → All P (names f) → (k : Bool) → Fine (try_open f k ip)
    opening-Fine none g k = tt
    opening-Fine (some content) g k = (small, sent, g)

    advance_at-Fine : (at : Pc) (k : Bool) → Holds at → Fine (advance_at file at k ip)
    unfolding advance_at
    advance_at-Fine lock true h = tt
    advance_at-Fine lock false h = (small, sent, tt)
    advance_at-Fine check k h = check-Fine k
    advance_at-Fine opening k h = opening-Fine file good k
    advance_at-Fine (scan []) k h = (small, sent, tt)
    advance_at-Fine (scan (line ∷ lines)) k h = (small, sent, h)
    advance_at-Fine (send line lines) k h = send-Fine line lines k h
    advance_at-Fine (unlock lines) true h = (small, sent, h)
    advance_at-Fine (unlock lines) false h = tt

  moved-Fine :
      (file : Option Text) (w v : Worker) (ip ip' : List Text)
      → All P (names file)
      → length ip ≤ capacity
      → All P ip
      → Holds w.pc
      → advance file w ip ≡ moved v ip'
      → Fine (moved v ip')
  moved-Fine file w v ip ip' good small sent h e =
      subst Fine e (advance_at-Fine file good ip small sent w.pc w.locked h)

  module _ (file : ℕ → Option Text) (good : (n : ℕ) → All P (names (file n))) where
    Step-Inv : {s t : State} → Inv s → Step file s t → Inv t
    Step-Inv {s} i (spawned live e) = rw e (record {
      bound = i.bound;
      sent = i.sent;
      held = All-append _ s.workers (new_worker ∷ []) i.held (tt, tt);
    })
    Step-Inv {s} i (worker_moved before after w v ip live at e e') =
        let all = subst (All (λ w. Holds w.pc)) at i.held in
        let fine =
          moved-Fine (file s.opened) w v s.ip ip (good s.opened) i.bound i.sent
            (All_at _ before w after all) e in
        rw e' (record {
          bound = fine.0;
          sent = fine.1;
          held = All_replace _ before w v after all fine.2;
        })
    Step-Inv i (worker_crashed before after w live at e e') =
        rw e' (record { bound = i.bound; sent = i.sent; held = i.held })

    Reach-Inv : {s : State} → Reach file start s → Inv s
    Reach-Inv here = record { bound = omega arith; sent = tt; held = tt }
    Reach-Inv (next r st) = Step-Inv (Reach-Inv r) st

    -- In each state that the process can reach, in whatever order its goroutines move, there are
    -- three names in the channel at most, and whatever holds of every name in the file, each time that
    -- it is read, holds of these.
    pub channel_bound : {s : State} → Reach file start s → All P s.ip × (length s.ip ≤ capacity)
    channel_bound r = let i = Reach-Inv r in (i.sent, i.bound)
