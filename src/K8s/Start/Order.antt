-- ===== src/K8s/Start/Order.antt =====
-- When an operator starts its manager, and how it ends.
use koko.Base.{◌≡◌, ◌↔◌, ◌≢◌, ◌⊎◌, ◌≤◌, length, List, [], ◌∷◌, Bool, true, false, not, ◌&&◌, arith}
use koko.Go.Text.{bytes}
use koko.K8s.Start.{Operator, Flags, Call, Refuses, returned, panicked, options, run}

-- The calls of a start that goes well, the newest first.
abbrev pub all_calls : Operator → Flags → List Call
all_calls o f =
    Call.start
    ∷ Call.add_readyz_check (bytes "readyz")
    ∷ Call.add_healthz_check (bytes "healthz")
    ∷ o.setup
    ∷ Call.new_manager (options o f)
    ∷ Call.get_config
    ∷ Call.add_to_scheme o.scheme
    ∷ Call.add_to_scheme (bytes "clientgoscheme")
    ∷ []

-- Every call of a list was accepted.
abbrev pub accepted : Refuses → List Call → Bool
accepted refuses [] = true
accepted refuses (c ∷ h) = not (refuses h c) && accepted refuses h

-- The newest call of a list was refused, and those before it accepted.
abbrev pub stopped : Refuses → List Call → Bool
stopped refuses [] = false
stopped refuses (c ∷ h) = refuses h c && accepted refuses h

abbrev pub IsSuffix : List Call → List Call → Type 0
IsSuffix h [] = h ≡ []
IsSuffix h (c ∷ k) = (h ≡ c ∷ k) ⊎ IsSuffix h k

-- The calls are made in one order, and the first that is refused is the last one made. The program
-- returns exactly when all eight were accepted, the start of the manager with them; it panics exactly
-- when a registration of types, one of the first two calls, was refused, and else exits with 1.
pub run_order :
    (refuses : Refuses) (o : Operator) (f : Flags)
    → let (e, calls) = run refuses o f in
      IsSuffix calls (all_calls o f)
      × ((e ≡ returned) ↔ ((calls ≡ all_calls o f) × (accepted refuses calls ≡ true)))
      × ((e ≢ returned) ↔ (stopped refuses calls ≡ true))
      × ((e ≡ panicked) ↔ ((stopped refuses calls ≡ true) × (length calls ≤ 2)))
unfolding run
run_order refuses o f = ground arith
