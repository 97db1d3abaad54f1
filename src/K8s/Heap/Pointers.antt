-- ===== src/K8s/Heap/Pointers.antt =====
-- Deep copies behind a slice and behind a pointer.
use koko.Base.{ℕ, ◌+◌, ◌≤◌, ◌<◌, ◌≡◌, ◌∙◌, refl, sym, ap, List, inl, arith}
use mathlib.Core.Path.{subst}
use koko.K8s.Heap.{Heap, Kind, Slice, alloc, store, copy_slice, copy_pointer}
use koko.K8s.Heap.Deep.{Agree, Deep, IsLive, IsDeep}
use koko.K8s.Heap.Copies.{
  views, AllWithin, Copied, views_local, AllWithin-local, AllWithin-mono, copy_elems-Copied,
}

module _ {C V W : Type 0} (K : Kind V C) (D : Deep C V W) where
  abbrev pub slice_of : Deep C Slice (List W)
  slice_of = record {
    copy = copy_slice K D.copy;
    view = λ s h. views K D s.ptr s.len h;
    Within = λ lo hi s h. (lo ≤ s.ptr) × (s.ptr + s.len ≤ hi) × AllWithin K D lo hi s.ptr s.len h;
  }

  abbrev pub pointer_to : Deep C ℕ W
  pointer_to = record {
    copy = copy_pointer K D.copy;
    view = λ a h. D.view (K.out (h.cell a)) h;
    Within = λ lo hi a h. (lo ≤ a) × (a < hi) × D.Within lo hi (K.out (h.cell a)) h;
  }

  module _ (d : IsDeep D) where
    abbrev made : Slice → Heap C → Heap C
    made s h = (alloc s.len h).1

    made_alike :
        (s : Slice) (h : Heap C)
        → IsLive slice_of s h
        → AllWithin K D 0 h.next s.ptr s.len (made s h)
    made_alike s h (lo, hi, w) =
        AllWithin-local K D d 0 h.next s.ptr s.len h (made s h) lo hi (λ a p q. refl) w

    slice-Copied :
        (s : Slice) (h : Heap C)
        → IsLive slice_of s h
        → Copied K D d s.ptr h.next s.len (made s h) (copy_slice K D.copy s h).1
    unfolding copy_slice
    slice-Copied s h (lo, hi, w) =
        copy_elems-Copied K D d h.next s.ptr h.next s.len _ hi (omega arith) (omega arith)
          (made_alike s h (lo, hi, w))

    pub slice_of-IsDeep : IsDeep slice_of
    unfolding copy_slice
    slice_of-IsDeep = record {
      view_local = λ lo hi s h k agree w. views_local K D d lo hi s.ptr s.len h k w.0 w.1 agree w.2;
      Within_local = λ lo hi s h k agree w.
          (w.0, w.1, AllWithin-local K D d lo hi s.ptr s.len h k w.0 w.1 agree w.2);
      Within_mono = λ lo hi lo' hi' s h p q w.
          (omega arith, omega arith, AllWithin-mono K D d lo hi lo' hi' s.ptr s.len h p q w.2);
      grows = λ s h w. omega (arith, (slice-Copied s h w).grown);
      keeps = λ s h w a p q. (slice-Copied s h w).kept a (omega arith) (inl q);
      same = λ s h w.
          (slice-Copied s h w).alike
          ∙ sym (views_local K D d 0 h.next s.ptr s.len h (made s h) w.0 w.1 (λ a p q. refl) w.2);
      fresh = λ s h w. (
        omega arith,
        omega (arith, (slice-Copied s h w).grown),
        AllWithin-mono K D d (h.next + s.len) _ h.next _ h.next s.len _ (omega arith) (omega arith)
            (slice-Copied s h w).new,
      );
    }

    module _ (a : ℕ) (h : Heap C) (w : IsLive pointer_to a h) where
      abbrev v : V
      v = K.out (h.cell a)

      -- After `new`, after the copy, and with the copy written to its place.
      abbrev h1 : Heap C
      h1 = record h { next = h.next + 1 }

      abbrev h2 : Heap C
      h2 = (D.copy v h1).1

      abbrev h3 : Heap C
      h3 = store h.next (K.into (D.copy v h1).0) h2

      live : IsLive D v h1
      live =
          d.Within_mono 0 h.next 0 h1.next v h1 (omega arith) (omega arith)
            (d.Within_local 0 h.next v h h1 (λ b p q. refl) w.2)

      wrote : K.out (h3.cell h.next) ≡ (D.copy v h1).0
      wrote =
          ap K.out (let e : h3.cell h.next ≡ K.into (D.copy v h1).0 = ground arith in e)
          ∙ K.out-into _

      apart : Agree h1.next h2.next h2 h3
      apart b p q = ground arith

      pointer_keeps : Agree 0 h.next h h3
      pointer_keeps b p q = ground (arith, d.keeps v h1 live b p)

      pointer_same : D.view (K.out (h3.cell h.next)) h3 ≡ D.view v h
      pointer_same =
          ap (λ x. D.view x h3) wrote
          ∙ sym (d.view_local h1.next h2.next _ h2 h3 apart (d.fresh v h1 live))
          ∙ d.same v h1 live
          ∙ sym (d.view_local 0 h.next v h h1 (λ b p q. refl) w.2)

      pointer_fresh : D.Within h.next h2.next (K.out (h3.cell h.next)) h3
      pointer_fresh =
          subst (λ x. D.Within h.next h2.next x h3) (sym wrote)
            (d.Within_mono h1.next h2.next h.next h2.next _ h3 (omega arith) (omega arith)
              (d.Within_local h1.next h2.next _ h2 h3 apart (d.fresh v h1 live)))

    pub pointer_to-IsDeep : IsDeep pointer_to
    unfolding copy_pointer
    pointer_to-IsDeep = record {
      view_local = λ lo hi a h k agree w.
          ap (λ c. D.view (K.out c) h) (agree a w.0 w.1)
          ∙ d.view_local lo hi _ h k agree
              (subst (λ c. D.Within lo hi (K.out c) h) (agree a w.0 w.1) w.2);
      Within_local = λ lo hi a h k agree w. (
        w.0,
        w.1,
        d.Within_local lo hi _ h k agree
            (subst (λ c. D.Within lo hi (K.out c) h) (agree a w.0 w.1) w.2),
      );
      Within_mono = λ lo hi lo' hi' a h p q w.
          (omega arith, omega arith, d.Within_mono lo hi lo' hi' _ h p q w.2);
      grows = λ a h w. omega (arith, d.grows (v a h w) (h1 a h w) (live a h w));
      keeps = pointer_keeps;
      same = pointer_same;
      fresh = λ a h w. (
        omega arith,
        omega (arith, d.grows (v a h w) (h1 a h w) (live a h w)),
        pointer_fresh a h w,
      );
    }
