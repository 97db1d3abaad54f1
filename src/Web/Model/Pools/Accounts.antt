-- ===== src/Web/Model/Pools/Accounts.antt =====
-- The connections of each pool against those that the calls hold: one step of one call.
use koko.Base.{
  ℕ, zero, suc, ◌+◌, ◌-◌, ◌<◌, ◌≤◌, ◌≡◌, refl, ap, List, [], ◌∷◌, ◌++◌, length, none, some, ◌==◌,
  ==_iff, if◌then◌else◌, arith,
}
use koko.Web.Model.Pools.{
  State, Conn, take_one, give_back, Stage, deferring, connecting, authenticating, asking, sending,
  closing, returned, panicked, replacing, replaced,
}

-- The connections of a pool that were taken and not closed; none of a pool that was never made.
abbrev pub borrowed : ℕ → List ℕ → ℕ
borrowed j [] = 0
borrowed zero (n ∷ ns) = n
borrowed (suc j) (n ∷ ns) = borrowed j ns

abbrev pub sum : List ℕ → ℕ
sum [] = 0
sum (n ∷ ns) = n + sum ns

-- The connections of a pool among those of a list.
abbrev pub count : ℕ → List Conn → ℕ
count j [] = 0
count j (g ∷ gs) = (if g == j then 1 else 0) + count j gs

-- The connections that a call has taken and not closed.
abbrev pub held : Stage → List Conn
held (deferring c) = []
held (connecting c g) = g ∷ []
held (authenticating c g a) = g ∷ a ∷ []
held (asking c g a) = g ∷ a ∷ []
held (sending c g a b) = g ∷ a ∷ b ∷ []
held (closing g a b r) = g ∷ a ∷ b ∷ []
held (returned a b r) = a ∷ b ∷ []
held (panicked out) = out
held replacing = []
held replaced = []

-- `_pool` is a pool that was made.
abbrev pub IsMade : State → Type 0
IsMade w = elim w.pool [ none ↦ Unit {0} | some g ↦ g < length w.pools ]

pub borrowed-take_one :
    (j g : ℕ) (ns : List ℕ)
    → g < length ns
    → borrowed j (take_one g ns) ≡ borrowed j ns + (if g == j then 1 else 0)
borrowed-take_one j g [] lt = omega arith
borrowed-take_one zero zero (n ∷ ns) lt = refl
borrowed-take_one (suc j) zero (n ∷ ns) lt = ground arith
borrowed-take_one zero (suc g) (n ∷ ns) lt = ground arith
borrowed-take_one (suc j) (suc g) (n ∷ ns) lt =
    ground (arith, borrowed-take_one j g ns, ==_iff g j, ==_iff (suc g) (suc j))

pub borrowed-give_back :
    (j g : ℕ) (ns : List ℕ)
    → borrowed j (give_back g ns) ≡ borrowed j ns - (if g == j then 1 else 0)
borrowed-give_back j g [] = ground arith
borrowed-give_back zero zero (n ∷ ns) = refl
borrowed-give_back (suc j) zero (n ∷ ns) = ground arith
borrowed-give_back zero (suc g) (n ∷ ns) = ground arith
borrowed-give_back (suc j) (suc g) (n ∷ ns) =
    ground (arith, borrowed-give_back j g ns, ==_iff g j, ==_iff (suc g) (suc j))

pub borrowed-made : (j : ℕ) (ns : List ℕ) → borrowed j (ns ++ (0 ∷ [])) ≡ borrowed j ns
borrowed-made zero [] = refl
borrowed-made (suc j) [] = refl
borrowed-made zero (n ∷ ns) = refl
borrowed-made (suc j) (n ∷ ns) = borrowed-made j ns

pub sum-take_one : (g : ℕ) (ns : List ℕ) → g < length ns → sum (take_one g ns) ≡ sum ns + 1
sum-take_one g [] lt = omega arith
sum-take_one zero (n ∷ ns) lt = omega arith
sum-take_one (suc g) (n ∷ ns) lt = omega (arith, sum-take_one g ns)

pub sum-give_back : (g : ℕ) (ns : List ℕ) → 1 ≤ borrowed g ns → sum (give_back g ns) + 1 ≡ sum ns
sum-give_back g [] le = omega arith
sum-give_back zero (n ∷ ns) le = omega arith
sum-give_back (suc g) (n ∷ ns) le = omega (arith, sum-give_back g ns)

pub sum-made : (ns : List ℕ) → sum (ns ++ (0 ∷ [])) ≡ sum ns
sum-made [] = refl
sum-made (n ∷ ns) = omega (arith, sum-made ns)

pub length-take_one : (g : ℕ) (ns : List ℕ) → length (take_one g ns) ≡ length ns
length-take_one g [] = refl
length-take_one zero (n ∷ ns) = refl
length-take_one (suc g) (n ∷ ns) = ap suc (length-take_one g ns)

pub length-give_back : (g : ℕ) (ns : List ℕ) → length (give_back g ns) ≡ length ns
length-give_back g [] = refl
length-give_back zero (n ∷ ns) = refl
length-give_back (suc g) (n ∷ ns) = ap suc (length-give_back g ns)
