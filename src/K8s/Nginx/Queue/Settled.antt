-- ===== src/K8s/Nginx/Queue/Settled.antt =====
-- What a key has got at any time of the work, and a reconcile of it.
use mathlib.Core.Path.{subst}
use koko.Base.{
  ℕ, ◌≡◌, ◌≢◌, refl, ap, ◌∙◌, sym, ◌⊎◌, inl, inr, ◌∷◌, Option, none, some, Bool, false, arith,
  Option-cases,
}
use koko.K8s.Types.{NamespacedName, ApiMachinery}
use koko.K8s.Client.{Call, Calls, Cluster, Flow, returned, other}
use koko.K8s.Nginx.{Ngloy, NgloySpec, Codec, reconcile}
use koko.K8s.Nginx.Frame.{key_eq, IsNamed, reconcile-others}
use koko.K8s.Nginx.Queue.{about, Resources, KeepsAll, alive, expected, Lossless}
use koko.K8s.Nginx.Queue.Keys.{key_eq_refl, about-others}
use koko.K8s.Nginx.Queue.Rounds.{
  Fresh, Steady, absent_round, deleting_round, first_round, next_round,
}

three_ways :
    (o : Option Ngloy)
    → (o ≡ none)
      ⊎ (((a : Ngloy) × (t : ℕ) × (o ≡ some a) × (a.meta.deletion_timestamp ≡ some t))
          ⊎ ((a : Ngloy) × (o ≡ some a) × (a.meta.deletion_timestamp ≡ none)))
three_ways none = inl refl
three_ways (some a) = elim (Option-cases a.meta.deletion_timestamp) [
  | inl live ↦ inr (inr (a, refl, live))
  | inr (t, going) ↦ inr (inl (a, t, refl, going))
]

module _ (K : ApiMachinery) (J : Codec) where
  abbrev pub Held : Option Ngloy → NamespacedName → Calls Ngloy → Type 0
  Held none k h = Fresh k h
  Held (some a) k h = Steady K J k a h

  -- Both are read off the calls about the key.
  pub Held-about :
      (o : Option Ngloy) (k : NamespacedName) (h h' : Calls Ngloy)
      → about k h' ≡ about k h
      → Held o k h
      → Held o k h'
  Held-about none k h h' same held = rw same held
  Held-about (some a) k h h' same held = rw same held

module _ (K : ApiMachinery) (J : Codec) (apps : Resources) where
  -- What a key has got when it was handled, and at any time.
  abbrev pub Reached : NamespacedName → Calls Ngloy → Type 0
  Reached k h = Held K J (alive (apps k)) k h

  abbrev pub Settled : NamespacedName → Calls Ngloy → Type 0
  Settled k h = Fresh k h ⊎ Reached k h

  pub Settled-about :
      (k : NamespacedName) (h h' : Calls Ngloy)
      → about k h' ≡ about k h
      → Settled k h
      → Settled k h'
  Settled-about k h h' same (inl fresh) = inl (Held-about K J none k h h' same fresh)
  Settled-about k h h' same (inr reached) =
      inr (Held-about K J (alive (apps k)) k h h' same reached)

module _ (K : ApiMachinery) (J : Codec) (eq_app : Ngloy → Ngloy → Bool)
    (eq_spec : NgloySpec → NgloySpec → Bool) (C : Cluster Ngloy) (apps : Resources)
    (keeps : KeepsAll C apps) (lossless : Lossless J apps) where
  abbrev pub round : NamespacedName → Calls Ngloy → Flow (Unit {0}) × Calls Ngloy
  round key h = reconcile K J eq_app eq_spec C key h

  keeps-IsNamed : IsNamed C
  keeps-IsNamed = record {
    app = λ h k fine. elim (Option-cases (apps k)) [
      | inl gone ↦ let g = keeps.absent h k gone in cc
      | inr (a, there) ↦ keeps.named h k a there
    ];
    deployment = λ h k. keeps.deployment_named h k;
    service = λ h k. keeps.service_named h k;
  }

  sure : (k : NamespacedName) (h : Calls Ngloy) (n : ℕ) → (C.app h k).1 ≢ some (other n)
  sure k h n = elim (Option-cases (apps k)) [
    | inl gone ↦ λ e. let g = keeps.absent h k gone in cc
    | inr (a, there) ↦ λ e. let g = keeps.found h k a there in cc
  ]

  -- Another key's calls stay.
  pub round-about :
      (j k : NamespacedName) (h : Calls Ngloy)
      → key_eq j k ≡ false
      → about k (round j h).1 ≡ about k h
  round-about j k h e =
      sym (about-others j k _ e)
      ∙ ap (about k) (reconcile-others K J eq_app eq_spec C j keeps-IsNamed h (sure j h))
      ∙ about-others j k h e

  -- A key whose resource is gone, or going, has nothing sent for it.
  unserved :
      (k : NamespacedName) (h : Calls Ngloy)
      → alive (apps k) ≡ none
      → Settled K J apps k h
      → Fresh k h
  unserved k h gone (inl fresh) = fresh
  unserved k h gone (inr reached) = subst (λ o. Held K J o k h) gone reached

  read_round :
      (k : NamespacedName) (h : Calls Ngloy)
      → alive (apps k) ≡ none
      → Settled K J apps k h
      → Reached K J apps k (Call.get_app k ∷ h)
  read_round k h gone settled = subst (λ o. Held K J o k (Call.get_app k ∷ h)) (sym gone) fresh
    where
      fresh : Fresh k (Call.get_app k ∷ h)
      fresh = rw (key_eq_refl k) (unserved k h gone settled)

  written_round :
      (k : NamespacedName) (h : Calls Ngloy) (a : Ngloy)
      → apps k ≡ some a
      → a.meta.deletion_timestamp ≡ none
      → alive (apps k) ≡ some a
      → Settled K J apps k h
      → ((round k h).0 ≡ returned none) × Reached K J apps k (round k h).1
  written_round k h a there live lives (inl fresh) =
      let (t, out, back) = lossless k a there in
      let (fine, steady) =
        first_round K J eq_app eq_spec C apps keeps k h a there live out back fresh in
      (fine, subst (λ o. Held K J o k (round k h).1) (sym lives) steady)
  written_round k h a there live lives (inr reached) =
      let steady = subst (λ o. Held K J o k h) lives reached in
      let (fine, steady') = next_round K J eq_app eq_spec C apps keeps k h a there live steady in
      (fine, subst (λ o. Held K J o k (round k h).1) (sym lives) steady')

  pub Settled-round :
      (k : NamespacedName) (h : Calls Ngloy)
      → Settled K J apps k h
      → ((round k h).0 ≡ expected (apps k)) × Reached K J apps k (round k h).1
  Settled-round k h settled = elim (three_ways (apps k)) [
    | inl gone ↦
        let e = absent_round K J eq_app eq_spec C apps keeps k h gone in
        (
          ap (λ r. r.0) e ∙ sym (ap expected gone),
          subst (λ (r : Flow (Unit {0}) × Calls Ngloy). Reached K J apps k r.1) (sym e)
              (read_round k h (ap alive gone) settled),
        )
    | inr (inl (a, t, there, going)) ↦
        let e = deleting_round K J eq_app eq_spec C apps keeps k h a there going in
        (
          ap (λ r. r.0) e ∙ sym (ap expected there),
          subst (λ (r : Flow (Unit {0}) × Calls Ngloy). Reached K J apps k r.1) (sym e)
              (read_round k h (ground (arith, there, going)) settled),
        )
    | inr (inr (a, there, live)) ↦
        let (fine, reached) =
          written_round k h a there live (ground (arith, there, live)) settled in
        (fine ∙ sym (ap expected there), reached)
  ]
