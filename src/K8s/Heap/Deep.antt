-- ===== src/K8s/Heap/Deep.antt =====
-- What a deep copy promises, as an interface: the copy reads as the original, every cell that it
-- leads to is new, and no cell that was in use is written.
use koko.Base.{ℕ, ◌≤◌, ◌<◌, ◌≡◌, ◌∙◌, sym}
use koko.K8s.Heap.{Heap}

-- Two memories hold the same from one address to another.
module _ {C : Type 0} where
  abbrev pub Agree : ℕ → ℕ → Heap C → Heap C → Type 0
  Agree lo hi h k = (a : ℕ) → lo ≤ a → a < hi → h.cell a ≡ k.cell a

-- The operations: the copy, what a value reads as in a memory, and that all cells to which it leads
-- lie between two addresses.
pub record Deep (C V W : Type 0) : Type 1 where
  pub copy : V → Heap C → V × Heap C
  pub view : V → Heap C → W
  pub Within : ℕ → ℕ → V → Heap C → Type 0

module _ {C V W : Type 0} (D : Deep C V W) where
  -- A value that leads to cells in use.
  abbrev pub IsLive : V → Heap C → Type 0
  IsLive v h = D.Within 0 h.next v h

  -- The laws. The first three say that a value depends on the cells to which it leads alone.
  pub record IsDeep : Type 0 where
    pub view_local :
        (lo hi : ℕ) (v : V) (h k : Heap C)
        → Agree lo hi h k
        → D.Within lo hi v h
        → D.view v h ≡ D.view v k
    pub Within_local :
        (lo hi : ℕ) (v : V) (h k : Heap C)
        → Agree lo hi h k
        → D.Within lo hi v h
        → D.Within lo hi v k
    pub Within_mono :
        (lo hi lo' hi' : ℕ) (v : V) (h : Heap C)
        → lo' ≤ lo
        → hi ≤ hi'
        → D.Within lo hi v h
        → D.Within lo' hi' v h
    pub grows : (v : V) (h : Heap C) → IsLive v h → h.next ≤ (D.copy v h).1.next
    pub keeps : (v : V) (h : Heap C) → IsLive v h → Agree 0 h.next h (D.copy v h).1
    pub same : (v : V) (h : Heap C) → IsLive v h → D.view (D.copy v h).0 (D.copy v h).1 ≡ D.view v h
    pub fresh :
        (v : V) (h : Heap C)
        → IsLive v h
        → D.Within h.next (D.copy v h).1.next (D.copy v h).0 (D.copy v h).1

  -- What a user of a deep copy relies on: the copy reads as the original; whatever is written to
  -- cells that were in use before, it still does; and whatever is written to new cells, the original
  -- still reads as it did.
  abbrev pub Independent : V → Heap C → V × Heap C → Type 0
  Independent v h (v', h') =
      (D.view v' h' ≡ D.view v h)
      × Agree 0 h.next h h'
      × ((k : Heap C) → Agree h.next h'.next h' k → D.view v' k ≡ D.view v h)
      × ((k : Heap C) → Agree 0 h.next h' k → D.view v k ≡ D.view v h)

  pub copy-Independent : IsDeep → (v : V) (h : Heap C) → IsLive v h → Independent v h (D.copy v h)
  copy-Independent d v h live = (
    d.same v h live,
    d.keeps v h live,
    λ k agree. sym (d.view_local h.next _ _ _ k agree (d.fresh v h live)) ∙ d.same v h live,
    λ k agree.
        sym
          (d.view_local 0 h.next v h k (λ a lo hi. d.keeps v h live a lo hi ∙ agree a lo hi) live),
  )
