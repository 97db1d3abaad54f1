-- ===== src/Web/Model/Pools/Conserved.antt =====
-- No step of a call loses a connection or makes one up.
use koko.Base.{
  ℕ, ◌+◌, ◌≤◌, ◌≡◌, refl, List, [], ◌∷◌, length, length-append, none, some, ==_iff, arith,
  Option-cases, inl, inr,
}
use koko.Web.World.{Services}
use koko.Web.Model.Pools.{
  State, Conn, take_one, redis_init, pool_get, conn_close, Stage, deferring, connecting,
  authenticating, asking, sending, closing, returned, panicked, replacing, replaced, advance,
}
use koko.Web.Model.Pools.Accounts.{
  borrowed, sum, count, held, IsMade, borrowed-take_one, borrowed-give_back, borrowed-made,
  sum-take_one, sum-give_back, sum-made, length-take_one, length-give_back,
}

-- What calls hold, before `gs` and after `hs`, and what is out of the pools, have changed alike.
pub record Conserves (w v : State) (gs hs : List Conn) : Type 0 where
  pub made : IsMade v
  pub each : (j : ℕ) → borrowed j v.pools + count j gs ≡ borrowed j w.pools + count j hs
  pub all : sum v.pools + length gs ≡ sum w.pools + length hs

-- The pools have what the calls hold.
abbrev pub Backed : State → List Conn → Type 0
Backed w gs = (j : ℕ) → count j gs ≤ borrowed j w.pools

module _ (S : Services) (w : State) (made : IsMade w) where
  taken :
      (g : ℕ) (gs : List Conn)
      → w.pool ≡ some g
      → Conserves w (record w { pools = take_one g w.pools }) gs (g ∷ gs)
  taken g gs e = record {
    made = ground (arith, length-take_one g w.pools);
    each = λ j. ground (arith, borrowed-take_one j g w.pools);
    all = ground (arith, sum-take_one g w.pools);
  }

  given_back :
      (g : ℕ) (gs : List Conn) → 1 ≤ borrowed g w.pools → Conserves w (conn_close g w) (g ∷ gs) gs
  unfolding conn_close
  given_back g gs out = record {
    made = ground (arith, length-give_back g w.pools);
    each = λ j. ground (arith, borrowed-give_back j g w.pools, ==_iff g j);
    all = ground (arith, sum-give_back g w.pools);
  }

  remade : Conserves w (redis_init w) [] []
  unfolding redis_init
  remade = record {
    made = ground (arith, length-append w.pools (0 ∷ []));
    each = λ j. ground (arith, borrowed-made j w.pools);
    all = ground (arith, sum-made w.pools);
  }

  unchanged : (gs : List Conn) → Conserves w w gs gs
  unchanged gs = record { made = made; each = λ j. refl; all = refl }

-- The order of the connections is of no matter.
reordered :
    (w v : State) (gs hs ks : List Conn)
    → ((j : ℕ) → count j hs ≡ count j ks)
    → length hs ≡ length ks
    → Conserves w v gs hs
    → Conserves w v gs ks
reordered w v gs hs ks same same' c = record {
  made = c.made;
  each = λ j. omega (arith, c.each j, same j);
  all = omega (arith, c.all);
}

one_borrowed : (w : State) (g : ℕ) (gs : List Conn) → Backed w (g ∷ gs) → 1 ≤ borrowed g w.pools
one_borrowed w g gs backed = ground (arith, backed g, ==_iff g g)

module _ (S : Services) (w : State) (made : IsMade w) where
  abbrev Advances : Stage → Type 0
  Advances s = Conserves w (advance S s w).1 (held s) (held (advance S s w).0)

  pool_get_nil : w.pool ≡ none → pool_get w ≡ (none, w)
  unfolding pool_get
  pool_get_nil e = ground (arith, e)

  pool_get_made :
      (g : ℕ) → w.pool ≡ some g → pool_get w ≡ (some g, record w { pools = take_one g w.pools })
  unfolding pool_get
  pool_get_made g e = ground (arith, e)

  pub advance-Conserves : (s : Stage) → Backed w (held s) → Advances s
  unfolding advance
  advance-Conserves (deferring c) backed = elim (Option-cases w.pool) [
    | inl cold ↦ rw (pool_get_nil cold) (unchanged S w made [])
    | inr (g, e) ↦ rw (pool_get_made g e) (taken S w made g [] e)
  ]
  advance-Conserves (connecting c g) backed = elim (Option-cases w.pool) [
    | inl cold ↦ rw (pool_get_nil cold) (given_back S w made g [] (one_borrowed w g [] backed))
    | inr (a, e) ↦ rw (pool_get_made a e) (
        reordered w _ (g ∷ []) (a ∷ g ∷ []) (g ∷ a ∷ []) (λ j. omega arith) refl
          (taken S w made a (g ∷ []) e))
  ]
  advance-Conserves (authenticating c g a) backed = record {
    made = made;
    each = λ j. refl;
    all = refl;
  }
  advance-Conserves (asking c g a) backed = elim (Option-cases w.pool) [
    | inl cold ↦
        rw (pool_get_nil cold) (given_back S w made g (a ∷ []) (one_borrowed w g (a ∷ []) backed))
    | inr (b, e) ↦ rw (pool_get_made b e) (
        reordered w _ (g ∷ a ∷ []) (b ∷ g ∷ a ∷ []) (g ∷ a ∷ b ∷ []) (λ j. omega arith) refl
          (taken S w made b (g ∷ a ∷ []) e))
  ]
  advance-Conserves (sending c g a b) backed = record { made = made; each = λ j. refl; all = refl }
  advance-Conserves (closing g a b r) backed =
      given_back S w made g (a ∷ b ∷ []) (one_borrowed w g (a ∷ b ∷ []) backed)
  advance-Conserves (returned a b r) backed = unchanged S w made (a ∷ b ∷ [])
  advance-Conserves (panicked out) backed = unchanged S w made out
  advance-Conserves replacing backed = remade S w made
  advance-Conserves replaced backed = unchanged S w made []
