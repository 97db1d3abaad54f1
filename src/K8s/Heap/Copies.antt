-- ===== src/K8s/Heap/Copies.antt =====
-- Pointers and slices copy deeply where what they lead to does.
use koko.Base.{
  ℕ, zero, suc, ◌+◌, ◌≤◌, ◌<◌, ◌≡◌, ◌≢◌, ◌∙◌, refl, sym, ap, List, [], ◌∷◌, ◌⊎◌, inl, inr, arith,
}
use mathlib.Core.Path.{ap₂, subst}
use koko.K8s.Heap.{Heap, Kind, store, copy_elems}
use koko.K8s.Heap.Deep.{Agree, Deep, IsLive, IsDeep}

module _ {C V W : Type 0} (K : Kind V C) (D : Deep C V W) where
  -- `n` elements from an address on.
  abbrev pub views : ℕ → ℕ → Heap C → List W
  views a zero h = []
  views a (suc n) h = D.view (K.out (h.cell a)) h ∷ views (suc a) n h

  abbrev pub AllWithin : ℕ → ℕ → ℕ → ℕ → Heap C → Type 0
  AllWithin lo hi a zero h = Unit
  AllWithin lo hi a (suc n) h = D.Within lo hi (K.out (h.cell a)) h × AllWithin lo hi (suc a) n h

  module _ (d : IsDeep D) where
    pub views_local :
        (lo hi a n : ℕ) (h k : Heap C)
        → lo ≤ a
        → a + n ≤ hi
        → Agree lo hi h k
        → AllWithin lo hi a n h
        → views a n h ≡ views a n k
    views_local lo hi a zero h k p q agree w = refl
    views_local lo hi a (suc n) h k p q agree (w, ws) = rw (sym (agree a p (omega arith))) (
        ap₂ ◌∷◌ (d.view_local lo hi _ h k agree w)
          (views_local lo hi (suc a) n h k (omega arith) (omega arith) agree ws))

    pub AllWithin-local :
        (lo hi a n : ℕ) (h k : Heap C)
        → lo ≤ a
        → a + n ≤ hi
        → Agree lo hi h k
        → AllWithin lo hi a n h
        → AllWithin lo hi a n k
    AllWithin-local lo hi a zero h k p q agree w = tt
    AllWithin-local lo hi a (suc n) h k p q agree (w, ws) = (
      rw (sym (agree a p (omega arith))) (d.Within_local lo hi _ h k agree w),
      AllWithin-local lo hi (suc a) n h k (omega arith) (omega arith) agree ws,
    )

    pub AllWithin-mono :
        (lo hi lo' hi' a n : ℕ) (h : Heap C)
        → lo' ≤ lo
        → hi ≤ hi'
        → AllWithin lo hi a n h
        → AllWithin lo' hi' a n h
    AllWithin-mono lo hi lo' hi' a zero h p q w = tt
    AllWithin-mono lo hi lo' hi' a (suc n) h p q (w, ws) =
        (d.Within_mono lo hi lo' hi' _ h p q w, AllWithin-mono lo hi lo' hi' (suc a) n h p q ws)

    -- What the loop has done, in the memory it leaves behind.
    pub record Copied (src dst n : ℕ) (h h' : Heap C) : Type 0 where
      pub grown : h.next ≤ h'.next
      pub kept : (a : ℕ) → a < h.next → (a < dst) ⊎ (dst + n ≤ a) → h.cell a ≡ h'.cell a
      pub alike : views dst n h' ≡ views src n h
      pub new : AllWithin h.next h'.next dst n h'

    -- One element: copied, and written to its place.
    abbrev one : ℕ → ℕ → Heap C → Heap C
    one src dst h =
        store dst (K.into (D.copy (K.out (h.cell src)) h).0) (D.copy (K.out (h.cell src)) h).1

    module _ (b src dst n : ℕ) (h : Heap C) (inside : src + suc n ≤ b) (above : b ≤ dst)
        (room : dst + suc n ≤ h.next) (w : AllWithin 0 b src (suc n) h) where
      abbrev v : V
      v = K.out (h.cell src)

      abbrev h1 : Heap C
      h1 = (D.copy v h).1

      abbrev h2 : Heap C
      h2 = one src dst h

      live : IsLive D v h
      live = d.Within_mono 0 b 0 h.next v h (omega arith) (omega arith) w.0

      one_grows : h.next ≤ h2.next
      one_grows = d.grows v h live

      one_keeps : (a : ℕ) → a < h.next → a ≢ dst → h.cell a ≡ h2.cell a
      one_keeps a lt ne = ground (arith, d.keeps v h live a)

      below : Agree 0 b h h2
      below a lo hi = one_keeps a (omega arith) (λ e. omega arith)

      rest_AllWithin : AllWithin 0 b (suc src) n h2
      rest_AllWithin = AllWithin-local 0 b (suc src) n h h2 (omega arith) (omega arith) below w.1

      module _ (h' : Heap C) (rest : Copied (suc src) (suc dst) n h2 h') where
        abbrev v' : V
        v' = (D.copy v h).0

        still_there : K.out (h'.cell dst) ≡ v'
        still_there =
            ap K.out
              (sym (rest.kept dst (omega (arith, one_grows)) (inl (omega arith))) ∙ ground arith)
            ∙ K.out-into v'

        fresh-Agree : Agree h.next h1.next h1 h'
        fresh-Agree a lo hi =
            (let other : h1.cell a ≡ h2.cell a = ground arith in other)
            ∙ rest.kept a hi (inr (omega arith))

        one_more : Copied src dst (suc n) h h'
        one_more = record {
          grown = omega (arith, one_grows, rest.grown);
          kept = λ a lt apart.
              one_keeps a lt (λ e. omega arith)
              ∙ rest.kept a (omega (arith, one_grows))
                  (elim apart [ inl before ↦ inl (omega arith) | inr behind ↦ inr (omega arith) ]);
          alike =
              ap₂ ◌∷◌
                (ap (λ x. D.view x h') still_there
                  ∙ sym (d.view_local h.next h1.next v' h1 h' fresh-Agree (d.fresh v h live))
                  ∙ d.same v h live)
                (rest.alike
                  ∙ sym (views_local 0 b (suc src) n h h2 (omega arith) (omega arith) below w.1));
          new = (
            subst (λ x. D.Within h.next h'.next x h') (sym still_there)
                (d.Within_mono h.next h1.next h.next h'.next v' h' (omega arith)
                  (omega (arith, rest.grown))
                  (d.Within_local h.next h1.next v' h1 h' fresh-Agree (d.fresh v h live))),
            AllWithin-mono h2.next h'.next h.next h'.next (suc dst) n h' one_grows (omega arith)
                rest.new,
          );
        }

    pub copy_elems-Copied :
        (b src dst n : ℕ) (h : Heap C)
        → src + n ≤ b
        → b ≤ dst
        → dst + n ≤ h.next
        → AllWithin 0 b src n h
        → Copied src dst n h (copy_elems K D.copy src dst n h)
    unfolding copy_elems
    copy_elems-Copied b src dst zero h p q r w = record {
      grown = omega arith;
      kept = λ a lt apart. refl;
      alike = refl;
      new = tt;
    }
    copy_elems-Copied b src dst (suc n) h p q r w = one_more b src dst n h p q r w _ (
        copy_elems-Copied b (suc src) (suc dst) n (one src dst h) (omega arith) (omega arith)
          (omega (arith, one_grows b src dst n h p q r w)) (rest_AllWithin b src dst n h p q r w))
