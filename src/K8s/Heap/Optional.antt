-- ===== src/K8s/Heap/Optional.antt =====
-- A deep copy of what may be nil.
use koko.Base.{ℕ, ◌≤◌, ◌≡◌, refl, ap, Option, none, some, arith}
use koko.K8s.Heap.{Heap, if_not_nil}
use koko.K8s.Heap.Deep.{Agree, Deep, IsLive, IsDeep}

module _ {C X W : Type 0} (D : Deep C X W) where
  abbrev view_optional : Option X → Heap C → Option W
  view_optional none h = none
  view_optional (some x) h = some (D.view x h)

  abbrev OptionalWithin : ℕ → ℕ → Option X → Heap C → Type 0
  OptionalWithin lo hi none h = Unit
  OptionalWithin lo hi (some x) h = D.Within lo hi x h

  -- What may be nil.
  abbrev pub optional : Deep C (Option X) (Option W)
  optional = record { copy = if_not_nil D.copy; view = view_optional; Within = OptionalWithin }

  module _ (d : IsDeep D) where
    view_optional_local :
        (lo hi : ℕ) (x : Option X) (h k : Heap C)
        → Agree lo hi h k
        → OptionalWithin lo hi x h
        → view_optional x h ≡ view_optional x k
    view_optional_local lo hi none h k agree w = refl
    view_optional_local lo hi (some x) h k agree w = ap some (d.view_local lo hi x h k agree w)

    OptionalWithin-local :
        (lo hi : ℕ) (x : Option X) (h k : Heap C)
        → Agree lo hi h k
        → OptionalWithin lo hi x h
        → OptionalWithin lo hi x k
    OptionalWithin-local lo hi none h k agree w = w
    OptionalWithin-local lo hi (some x) h k agree w = d.Within_local lo hi x h k agree w

    OptionalWithin-mono :
        (lo hi lo' hi' : ℕ) (x : Option X) (h : Heap C)
        → lo' ≤ lo
        → hi ≤ hi'
        → OptionalWithin lo hi x h
        → OptionalWithin lo' hi' x h
    OptionalWithin-mono lo hi lo' hi' none h p q w = w
    OptionalWithin-mono lo hi lo' hi' (some x) h p q w = d.Within_mono lo hi lo' hi' x h p q w

    optional_grows :
        (x : Option X) (h : Heap C) → IsLive optional x h → h.next ≤ (if_not_nil D.copy x h).1.next
    unfolding if_not_nil
    optional_grows none h w = omega arith
    optional_grows (some x) h w = d.grows x h w

    optional_keeps :
        (x : Option X) (h : Heap C)
        → IsLive optional x h
        → Agree 0 h.next h (if_not_nil D.copy x h).1
    unfolding if_not_nil
    optional_keeps none h w = λ a p q. refl
    optional_keeps (some x) h w = d.keeps x h w

    optional_same :
        (x : Option X) (h : Heap C)
        → IsLive optional x h
        → view_optional (if_not_nil D.copy x h).0 (if_not_nil D.copy x h).1 ≡ view_optional x h
    unfolding if_not_nil
    optional_same none h w = refl
    optional_same (some x) h w = ap some (d.same x h w)

    optional_fresh :
        (x : Option X) (h : Heap C)
        → IsLive optional x h
        → OptionalWithin h.next
            (if_not_nil D.copy x h).1.next
            (if_not_nil D.copy x h).0
            (if_not_nil D.copy x h).1
    unfolding if_not_nil
    optional_fresh none h w = tt
    optional_fresh (some x) h w = d.fresh x h w

    pub optional-IsDeep : IsDeep optional
    optional-IsDeep = record {
      view_local = view_optional_local;
      Within_local = OptionalWithin-local;
      Within_mono = OptionalWithin-mono;
      grows = optional_grows;
      keeps = optional_keeps;
      same = optional_same;
      fresh = optional_fresh;
    }
