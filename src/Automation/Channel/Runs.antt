-- ===== src/Automation/Channel/Runs.antt =====
-- Runs of the process that end it, from any state on.
use koko.Base.{
  ℕ, zero, suc, ◌+◌, ◌≤◌, ◌≡◌, ◌≢◌, refl, ap, List, [], ◌∷◌, ◌++◌, Option, none, some, true, false,
  arith, length, ◌⊎◌, inl, inr,
}
use koko.Go.Text.{Text}
use koko.Go.Lines.{scan_lines}
use koko.Automation.Channel.{
  check, opening, scan, Worker, new_worker, moved, crashed, capacity, opens, try_open, advance_at,
  advance, State, spawned, worker_moved, worker_crashed, Reach, next,
}

-- A state in which the last goroutine is looked at, and one before it is started.
abbrev pub at : List Worker → Worker → List Text → ℕ → State
at ws w ip n = record { workers = ws ++ (w ∷ []); ip = ip; opened = n; ended = false }

abbrev pub live : List Worker → List Text → ℕ → State
live ws ip n = record { workers = ws; ip = ip; opened = n; ended = false }

pub opened_cases : (f : Option Text) → (f ≡ none) ⊎ ((c : Text) × (f ≡ some c))
opened_cases none = inl refl
opened_cases (some c) = inr (c, refl)

module _ (file : ℕ → Option Text) where
  abbrev pub Ends : State → Type 0
  Ends s = (t : State) × Reach file s t × (t.ended ≡ true)

  module _ {s : State} where
    go :
        (ws : List Worker) (w v : Worker) (ip : List Text) (n m : ℕ)
        → advance (file n) w ip ≡ moved v ip
        → m ≡ n + opens w.pc
        → Reach file s (at ws w ip n)
        → Reach file s (at ws v ip m)
    go ws w v ip n m e c r =
        next r (worker_moved ws [] w v ip refl refl e (ap (λ k. at ws v ip k) c))

    stop :
        (ws : List Worker) (w : Worker) (ip : List Text) (n : ℕ)
        → advance (file n) w ip ≡ crashed
        → Reach file s (at ws w ip n)
        → Ends s
    stop ws w ip n e r = (_, next r (worker_crashed ws [] w refl refl e refl), refl)

    -- A new goroutine at the test of the channel.
    pub reach_check :
        (ws : List Worker) (ip : List Text) (n : ℕ)
        → Reach file s (live ws ip n)
        → Reach file s (at ws (record { pc = check; locked = true }) ip n)
    unfolding advance_at
    reach_check ws ip n r =
        go ws new_worker _ ip n n refl (omega arith) (next r (spawned refl refl))

    -- With a full channel `Wait` is called.
    pub full_crash :
        (ws : List Worker) (ip : List Text) (n : ℕ)
        → length ip ≡ capacity
        → Reach file s (live ws ip n)
        → Ends s
    unfolding advance_at
    full_crash ws ip n full r = stop ws _ ip n (ground (arith, full)) (reach_check ws ip n r)

    open_next :
        (ws : List Worker) (ip : List Text) (n : ℕ)
        → length ip ≢ capacity
        → Reach file s (live ws ip n)
        → Reach file s (at ws (record { pc = opening; locked = true }) ip n)
    unfolding advance_at
    open_next ws ip n room r =
        go ws _ _ ip n n (ground (arith, room)) (omega arith) (reach_check ws ip n r)

    refused_crash :
        (ws : List Worker) (ip : List Text) (n : ℕ)
        → file n ≡ none
        → Reach file s (at ws (record { pc = opening; locked = true }) ip n)
        → Ends s
    unfolding advance_at
    refused_crash ws ip n missing r = stop ws _ ip n (ap (λ f. try_open f true ip) missing) r

    open_one :
        (content : Text) (ws : List Worker) (ip : List Text) (n : ℕ)
        → file n ≡ some content
        → Reach file s (at ws (record { pc = opening; locked = true }) ip n)
        → Reach file s (at ws (record { pc = scan (scan_lines content); locked = true }) ip (suc n))
    unfolding advance_at
    open_one content ws ip n there r =
        go ws _ _ ip n (suc n) (ap (λ f. try_open f true ip) there) (omega arith) r

    -- One goroutine after the other opens the file, until it is refused.
    pub exhaust :
        (limit : ℕ)
        → ((n : ℕ) → limit ≤ n → file n ≡ none)
        → (k : ℕ) (ws : List Worker) (ip : List Text) (n : ℕ) → limit ≤ n + k
        → length ip ≢ capacity
        → Reach file s (live ws ip n)
        → Ends s
    exhaust limit refused zero ws ip n e room r =
        refused_crash ws ip n (refused n (omega (arith, e))) (open_next ws ip n room r)
    exhaust limit refused (suc k) ws ip n e room r = elim (opened_cases (file n)) [
      | inl missing ↦ refused_crash ws ip n missing (open_next ws ip n room r)
      | inr (content, there) ↦
          exhaust limit refused k _ ip (suc n) (omega (arith, e)) room
            (open_one content ws ip n there (open_next ws ip n room r))
    ]
