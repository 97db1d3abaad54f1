-- ===== src/K8s/Heap/Structs.antt =====
-- Deep copies of a struct from those of its fields.
use koko.Base.{◌≡◌, ◌∙◌, refl, sym, ap, arith}
use mathlib.Core.Path.{ap₂, subst}
use koko.K8s.Heap.{Heap}
use koko.K8s.Heap.Deep.{Agree, Deep, IsLive, IsDeep}

-- A value that leads nowhere: assignment copies it.
abbrev pub flat : (C V : Type 0) → Deep C V V
flat C V = record { copy = λ v h. (v, h); view = λ v h. v; Within = λ lo hi v h. Unit }

pub flat-IsDeep : (C V : Type 0) → IsDeep (flat C V)
flat-IsDeep C V = record {
  view_local = λ lo hi v h k agree w. refl;
  Within_local = λ lo hi v h k agree w. w;
  Within_mono = λ lo hi lo' hi' v h p q w. w;
  grows = λ v h w. omega arith;
  keeps = λ v h w a p q. refl;
  same = λ v h w. refl;
  fresh = λ v h w. tt;
}

-- Two fields, copied one after the other.
module _ {C V V' W W' : Type 0} (D : Deep C V W) (E : Deep C V' W') where
  unfoldable pub copy_both : V × V' → Heap C → (V × V') × Heap C
  copy_both (v, v') h = let (u, h1) = D.copy v h in let (u', h2) = E.copy v' h1 in ((u, u'), h2)

  abbrev pub both : Deep C (V × V') (W × W')
  both = record {
    copy = copy_both;
    view = λ p h. (D.view p.0 h, E.view p.1 h);
    Within = λ lo hi p h. D.Within lo hi p.0 h × E.Within lo hi p.1 h;
  }

  module _ (d : IsDeep D) (e : IsDeep E) where
    module _ (v : V) (v' : V') (h : Heap C) (w : IsLive both (v, v') h) where
      abbrev k1 : Heap C
      k1 = (D.copy v h).1

      abbrev k2 : Heap C
      k2 = (E.copy v' k1).1

      second-IsLive : IsLive E v' k1
      second-IsLive =
          e.Within_mono 0 h.next 0 k1.next v' k1 (omega arith) (d.grows v h w.0)
            (e.Within_local 0 h.next v' h k1 (d.keeps v h w.0) w.1)

      still : Agree h.next k1.next k1 k2
      still a p q = e.keeps v' k1 second-IsLive a (omega arith) q

      both_keeps : Agree 0 h.next h k2
      both_keeps a p q =
          d.keeps v h w.0 a p q ∙ e.keeps v' k1 second-IsLive a p (omega (arith, d.grows v h w.0))

      both_same :
          ◌≡◌ {A = W × W'}
            (D.view (D.copy v h).0 k2, E.view (E.copy v' k1).0 k2)
            (D.view v h, E.view v' h)
      both_same =
          ap₂ (λ x y. (x, y))
            (sym (d.view_local h.next k1.next _ k1 k2 still (d.fresh v h w.0)) ∙ d.same v h w.0)
            (e.same v' k1 second-IsLive ∙ sym (e.view_local 0 h.next v' h k1 (d.keeps v h w.0) w.1))

      both_fresh :
          D.Within h.next k2.next (D.copy v h).0 k2 × E.Within h.next k2.next (E.copy v' k1).0 k2
      both_fresh = (
        d.Within_mono h.next k1.next h.next k2.next _ k2 (omega arith) (e.grows v' k1 second-IsLive)
            (d.Within_local h.next k1.next _ k1 k2 still (d.fresh v h w.0)),
        e.Within_mono k1.next k2.next h.next k2.next _ k2 (d.grows v h w.0) (omega arith)
            (e.fresh v' k1 second-IsLive),
      )

    pub both-IsDeep : IsDeep both
    unfolding copy_both
    both-IsDeep = record {
      view_local = λ lo hi p h k agree w.
          ap₂ (λ x y. (x, y)) (d.view_local lo hi p.0 h k agree w.0)
            (e.view_local lo hi p.1 h k agree w.1);
      Within_local = λ lo hi p h k agree w.
          (d.Within_local lo hi p.0 h k agree w.0, e.Within_local lo hi p.1 h k agree w.1);
      Within_mono = λ lo hi lo' hi' p h le le' w. (
        d.Within_mono lo hi lo' hi' p.0 h le le' w.0,
        e.Within_mono lo hi lo' hi' p.1 h le le' w.1,
      );
      grows = λ p h w.
          omega
            (arith, d.grows p.0 h w.0, e.grows p.1 (D.copy p.0 h).1 (second-IsLive p.0 p.1 h w));
      keeps = λ p h w. both_keeps p.0 p.1 h w;
      same = λ p h w. both_same p.0 p.1 h w;
      fresh = λ p h w. both_fresh p.0 p.1 h w;
    }

-- A struct: some of its fields are copied deeply, and assignment has copied the rest.
module _ {C T V W R : Type 0} (D : Deep C V W) (fields : T → V) (with_fields : T → V → T)
    (rest : T → R) where
  unfoldable pub copy_struct : T → Heap C → T × Heap C
  copy_struct t h = let (v, h') = D.copy (fields t) h in (with_fields t v, h')

  abbrev pub struct : Deep C T (R × W)
  struct = record {
    copy = copy_struct;
    view = λ t h. (rest t, D.view (fields t) h);
    Within = λ lo hi t h. D.Within lo hi (fields t) h;
  }

  pub struct-IsDeep :
      IsDeep D
      → ((t : T) (v : V) → fields (with_fields t v) ≡ v)
      → ((t : T) (v : V) → rest (with_fields t v) ≡ rest t)
      → IsDeep struct
  unfolding copy_struct
  struct-IsDeep d got kept = record {
    view_local =
        λ lo hi t h k agree w. ap (λ x. (rest t, x)) (d.view_local lo hi (fields t) h k agree w);
    Within_local = λ lo hi t h k agree w. d.Within_local lo hi (fields t) h k agree w;
    Within_mono = λ lo hi lo' hi' t h p q w. d.Within_mono lo hi lo' hi' (fields t) h p q w;
    grows = λ t h w. d.grows (fields t) h w;
    keeps = λ t h w. d.keeps (fields t) h w;
    same = λ t h w.
        ap₂ (λ x y. (x, y)) (kept t _)
          (ap (λ x. D.view x (D.copy (fields t) h).1) (got t _) ∙ d.same (fields t) h w);
    fresh = λ t h w.
        subst (λ x. D.Within h.next (D.copy (fields t) h).1.next x (D.copy (fields t) h).1)
          (sym (got t _)) (d.fresh (fields t) h w);
  }
