-- ===== src/Web/Model/Pools/Interleaved.antt =====
-- Calls of Code_Memche.go and of RedisInit that interleave, and what they leave out of the pools.
use mathlib.Core.Path.{subst}
use koko.Base.{
  ap, ◌∙◌, map, ℕ, zero, suc, ◌+◌, ◌*◌, ◌≡◌, refl, List, [], ◌∷◌, ◌++◌, length, length-append,
  Option, none, some, arith, All,
}
use koko.Web.World.{Services, Command}
use koko.Web.Model.Pools.{
  State, Conn, Stage, deferring, connecting, authenticating, asking, sending, closing, returned,
  panicked, replacing, replaced, advance, advance_at, interleave,
}
use koko.Web.Model.Pools.Accounts.{borrowed, sum, count, held, IsMade}
use koko.Web.Model.Pools.Conserved.{Conserves, Backed, advance-Conserves}

abbrev pub all_held : List Stage → List Conn
all_held [] = []
all_held (s ∷ ss) = held s ++ all_held ss

count-append : (j : ℕ) (gs hs : List Conn) → count j (gs ++ hs) ≡ count j gs + count j hs
count-append j [] hs = omega arith
count-append j (g ∷ gs) hs = ground (arith, count-append j gs hs)

one_by_one :
    {w v u : State} (gs hs ks : List Conn)
    → Conserves w v gs hs
    → Conserves v u hs ks
    → Conserves w u gs ks
one_by_one gs hs ks c d = record {
  made = d.made;
  each = λ j. omega (arith, c.each j, d.each j);
  all = omega (arith, c.all, d.all);
}

before :
    {w v : State} (gs hs ks : List Conn) → Conserves w v gs hs → Conserves w v (gs ++ ks) (hs ++ ks)
before gs hs ks c = record {
  made = c.made;
  each = λ j. omega (arith, c.each j, count-append j gs ks, count-append j hs ks);
  all = omega (arith, c.all, length-append gs ks, length-append hs ks);
}

behind :
    {w v : State} (gs hs ks : List Conn) → Conserves w v gs hs → Conserves w v (ks ++ gs) (ks ++ hs)
behind gs hs ks c = record {
  made = c.made;
  each = λ j. omega (arith, c.each j, count-append j ks gs, count-append j ks hs);
  all = omega (arith, c.all, length-append ks gs, length-append ks hs);
}

still-Backed : {w v : State} (gs hs : List Conn) → Conserves w v gs hs → Backed w gs → Backed v hs
still-Backed gs hs c backed j = omega (arith, c.each j, backed j)

Backed-first : (w : State) (gs hs : List Conn) → Backed w (gs ++ hs) → Backed w gs
Backed-first w gs hs backed j = omega (arith, backed j, count-append j gs hs)

Backed-rest : (w : State) (gs hs : List Conn) → Backed w (gs ++ hs) → Backed w hs
Backed-rest w gs hs backed j = omega (arith, backed j, count-append j gs hs)

module _ (S : Services) where
  advance_at-Conserves :
      (i : ℕ) (ss : List Stage) (w : State)
      → IsMade w
      → Backed w (all_held ss)
      → Conserves w (advance_at S i ss w).1 (all_held ss) (all_held (advance_at S i ss w).0)
  unfolding advance_at
  advance_at-Conserves i [] w made backed = record { made = made; each = λ j. refl; all = refl }
  advance_at-Conserves zero (s ∷ ss) w made backed =
      before (held s) _ (all_held ss)
        (advance-Conserves S w made s (Backed-first w (held s) _ backed))
  advance_at-Conserves (suc i) (s ∷ ss) w made backed =
      behind (all_held ss) _ (held s)
        (advance_at-Conserves i ss w made (Backed-rest w (held s) _ backed))

  interleave-Conserves :
      (schedule : List ℕ) (ss : List Stage) (w : State)
      → IsMade w
      → Backed w (all_held ss)
      → Conserves w
          (interleave S schedule ss w).1
          (all_held ss)
          (all_held (interleave S schedule ss w).0)
  unfolding interleave
  interleave-Conserves [] ss w made backed = record { made = made; each = λ j. refl; all = refl }
  interleave-Conserves (i ∷ schedule) ss w made backed =
      let c = advance_at-Conserves i ss w made backed in
      one_by_one (all_held ss) _ _ c (
        interleave-Conserves schedule _ (advance_at S i ss w).1 c.made
          (still-Backed (all_held ss) _ c backed))

-- What is called: `RedisInit`, or a function with its command.
abbrev pub started : Option Command → Stage
started none = replacing
started (some c) = deferring c

abbrev pub calls : List (Option Command) → ℕ
calls [] = 0
calls (none ∷ os) = calls os
calls (some c ∷ os) = 1 + calls os

all_held-started : (os : List (Option Command)) → all_held (map started os) ≡ []
all_held-started [] = refl
all_held-started (none ∷ os) = all_held-started os
all_held-started (some c ∷ os) = all_held-started os

-- A call of one of the two functions, whatever its stage.
abbrev is_call : Stage → ℕ
is_call replacing = 0
is_call replaced = 0
is_call _ = 1

call_stages : List Stage → ℕ
call_stages [] = 0
call_stages (s ∷ ss) = is_call s + call_stages ss

call_stages-started : (os : List (Option Command)) → call_stages (map started os) ≡ calls os
unfolding call_stages
call_stages-started [] = refl
call_stages-started (none ∷ os) = omega (arith, call_stages-started os)
call_stages-started (some c ∷ os) = omega (arith, call_stages-started os)

is_call-advance : (S : Services) (s : Stage) (w : State) → is_call (advance S s w).0 ≡ is_call s
unfolding advance koko.Web.Model.Pools.pool_get
is_call-advance S (deferring c) w = ground arith
is_call-advance S (connecting c g) w = ground arith
is_call-advance S (authenticating c g a) w = refl
is_call-advance S (asking c g a) w = ground arith
is_call-advance S (sending c g a b) w = refl
is_call-advance S (closing g a b r) w = refl
is_call-advance S (returned a b r) w = refl
is_call-advance S (panicked out) w = refl
is_call-advance S replacing w = refl
is_call-advance S replaced w = refl

call_stages-advance_at :
    (S : Services) (i : ℕ) (ss : List Stage) (w : State)
    → call_stages (advance_at S i ss w).0 ≡ call_stages ss
unfolding call_stages advance_at
call_stages-advance_at S i [] w = refl
call_stages-advance_at S zero (s ∷ ss) w = omega (arith, is_call-advance S s w)
call_stages-advance_at S (suc i) (s ∷ ss) w = ap (◌+◌ (is_call s)) (call_stages-advance_at S i ss w)

call_stages-interleave :
    (S : Services) (schedule : List ℕ) (ss : List Stage) (w : State)
    → call_stages (interleave S schedule ss w).0 ≡ call_stages ss
unfolding interleave
call_stages-interleave S [] ss w = refl
call_stages-interleave S (i ∷ schedule) ss w =
    call_stages-interleave S schedule _ (advance_at S i ss w).1 ∙ call_stages-advance_at S i ss w

-- A call has returned, or a replacement is made.
abbrev pub HasReturned : Stage → Type 0
HasReturned (returned a b r) = Unit
HasReturned replaced = Unit
HasReturned _ = ⊥

length-all_held : (ss : List Stage) → All HasReturned ss → length (all_held ss) ≡ 2 * call_stages ss
unfolding call_stages
length-all_held [] over = refl
length-all_held (returned a b r ∷ ss) (o, over) = omega (arith, length-all_held ss over)
length-all_held (replaced ∷ ss) (o, over) = omega (arith, length-all_held ss over)
length-all_held (_ ∷ ss) (o, over) = absurd o

module _ (S : Services) (schedule : List ℕ) (os : List (Option Command)) (w : State)
    (made : IsMade w) where
  abbrev after : List Stage × State
  after = interleave S schedule (map started os) w

  conserved : Conserves w after.1 [] (all_held after.0)
  conserved =
      subst (λ gs. Conserves w after.1 gs (all_held after.0)) (all_held-started os)
        (interleave-Conserves S schedule (map started os) w made
          (rw (all_held-started os) (λ j. omega arith)))

  -- However calls of Code_Memche.go and of `RedisInit` interleave, and wherever they stop: `_pool` is
  -- a pool that was made, if it was before; of each pool, also of one that was replaced, those
  -- connections are out that were out before and those that the calls have taken from it and not
  -- closed; and once each call has returned, all pools together miss two connections for each.
  pub interleave-account :
      IsMade after.1
      × ((j : ℕ) → borrowed j after.1.pools ≡ borrowed j w.pools + count j (all_held after.0))
      × (All HasReturned after.0 → sum after.1.pools ≡ sum w.pools + 2 * calls os)
  interleave-account = (
    conserved.made,
    λ j. omega (arith, conserved.each j),
    λ over. omega (
      arith,
      conserved.all,
      length-all_held after.0 over,
      call_stages-interleave S schedule (map started os) w,
      call_stages-started os,
    ),
  )
