-- ===== src/Automation/Channel/Crash.antt =====
-- What the copied mutex and condition variable, and the files that nobody closes, lead to.
use koko.Base.{
  ◌≤◌, ℕ, zero, suc, ◌+◌, ◌≡◌, refl, sym, ◌∙◌, ap, List, [], ◌∷◌, ◌++◌, Option, none, true, false,
  Bool, arith, All, All-append, length, length-append, inl, inr,
}
use native.Mathlib.Decide.{ℕ_discrete}
use mathlib.Core.Path.{subst}
use koko.Go.Text.{Text}
use koko.Automation.Channel.{
  Pc, lock, check, opening, scan, send, unlock, Worker, moved, crashed, capacity, opens, try_open,
  advance_at, State, start, Step, spawned, worker_moved, worker_crashed, Reach, here, next,
}
use koko.Automation.Channel.Runs.{live, opened_cases, reach_check, full_crash, exhaust}

module _ (file : ℕ → Option Text) (limit : ℕ) (refused : (n : ℕ) → limit ≤ n → file n ≡ none) where
  opens_at :
      (p : Pc) (k : Bool) (v : Worker) (ip ip' : List Text) (n : ℕ)
      → n ≤ limit
      → advance_at (file n) p k ip ≡ moved v ip'
      → n + opens p ≤ limit
  unfolding advance_at
  opens_at opening k v ip ip' n small e = elim (opened_cases (file n)) [
    | inl missing ↦
        let stuck : crashed ≡ moved v ip' = sym (ap (λ f. try_open f k ip) missing) ∙ e in cc
    | inr (content, there) ↦ ground (arith, refused n)
  ]
  opens_at lock k v ip ip' n small e = omega (arith, small)
  opens_at check k v ip ip' n small e = omega (arith, small)
  opens_at (scan lines) k v ip ip' n small e = omega (arith, small)
  opens_at (send line lines) k v ip ip' n small e = omega (arith, small)
  opens_at (unlock lines) k v ip ip' n small e = omega (arith, small)

  Step-opened : {s t : State} → s.opened ≤ limit → Step file s t → t.opened ≤ limit
  Step-opened i (spawned live e) = rw e i
  Step-opened {s} i (worker_moved before after w v ip live at e e') =
      rw e' (opens_at w.pc w.locked v s.ip ip s.opened i e)
  Step-opened i (worker_crashed before after w live at e e') = rw e' i

  Reach-opened : {s : State} → Reach file start s → s.opened ≤ limit
  Reach-opened here = omega arith
  Reach-opened (next r step) = Step-opened (Reach-opened r) step

  -- On a system that opens `limit` files and refuses more, the process never has more open than
  -- that; and in each state that it can reach, and in which it has not ended, it can come to an end,
  -- which is a panic, a fatal error or `log.Fatal`, whatever the file holds.
  pub crash_reachable :
      {s : State}
      → Reach file start s
      → (s.opened ≤ limit) × (s.ended ≡ false → (t : State) × Reach file s t × (t.ended ≡ true))
  crash_reachable {s} r = (
    Reach-opened r,
    λ going.
        let alive : Reach file s (live s.workers s.ip s.opened) =
          subst
            (λ b.
              Reach file s
                (record { workers = s.workers; ip = s.ip; opened = s.opened; ended = b }))
            going here in
        elim (ℕ_discrete (length s.ip) capacity) [
          | yes full ↦ full_crash file s.workers s.ip s.opened full alive
          | no room ↦
              exhaust file limit refused limit s.workers s.ip s.opened (omega arith) room alive
        ],
  )

all_locked :
    (file : ℕ → Option Text) (n : ℕ)
    → (ws : List Worker) × Reach file start (live ws [] 0)
      × (length ws ≡ n)
      × All (λ w. w ≡ record { pc = check; locked = true }) ws
all_locked file zero = ([], here, refl, tt)
all_locked file (suc n) =
    let (ws, r, counted, locked) = all_locked file n in
    (
      ws ++ (record { pc = check; locked = true } ∷ []),
      reach_check file ws [] 0 r,
      length-append ws _ ∙ omega (arith, counted),
      All-append _ ws _ locked (refl, tt),
    )

-- For each number there is a reachable state with that many goroutines, all of them behind their
-- call of `Lock`: the mutex, passed by value, keeps none out.
pub lock_excludes_none :
    (file : ℕ → Option Text) (n : ℕ)
    → (s : State) × Reach file start s
      × (length s.workers ≡ n)
      × All (λ w. w ≡ record { pc = check; locked = true }) s.workers
lock_excludes_none file n =
    let (ws, r, counted, locked) = all_locked file n in (_, r, counted, locked)
