-- ===== src/K8s/Nginx/Queue/Outcome.antt =====
-- What many reconciles lead to.
use mathlib.Core.Path.{ap₂, subst}
use koko.Base.{
  if◌then◌else◌, ◌≡◌, refl, ◌∙◌, inl, inr, List, [], ◌∷◌, map, Option, none, some, Bool, true,
  false, arith, Bool-cases,
}
use koko.K8s.Types.{NamespacedName, ApiMachinery}
use koko.K8s.Client.{Calls, Cluster, Flow}
use koko.K8s.Nginx.{Ngloy, NgloySpec, Codec, reconcile}
use koko.K8s.Nginx.Writes.{sent_deployment, sent_service}
use koko.K8s.Nginx.Converges.{creations}
use koko.K8s.Nginx.Frame.{key_eq}
use koko.K8s.Nginx.Queue.{
  objects, wanted_deployment, wanted_service, about, has, work, Resources, KeepsAll, alive,
  expected, Lossless,
}
use koko.K8s.Nginx.Writes.{sent_deployment, sent_service}
use koko.K8s.Nginx.Converges.{creations}
use koko.K8s.Nginx.Queue.Keys.{key_eq-same}
use koko.K8s.Nginx.Queue.Settled.{
  Held, Reached, Settled, Held-about, Settled-about, round-about, Settled-round,
}

module _ (K : ApiMachinery) (J : Codec) (eq_app : Ngloy → Ngloy → Bool)
    (eq_spec : NgloySpec → NgloySpec → Bool) (C : Cluster Ngloy) (apps : Resources)
    (keeps : KeepsAll C apps) (lossless : Lossless J apps) where
  abbrev round : NamespacedName → Calls Ngloy → Flow (Unit {0}) × Calls Ngloy
  round key h = reconcile K J eq_app eq_spec C key h

  abbrev worked : List NamespacedName → Calls Ngloy → List (Flow (Unit {0})) × Calls Ngloy
  worked ks h = work K J eq_app eq_spec C ks h

  round-Settled :
      (j : NamespacedName) (h : Calls Ngloy)
      → ((k : NamespacedName) → Settled K J apps k h)
      → (k : NamespacedName)
      → (key_eq j k ≡ true → Reached K J apps k (round j h).1) × Settled K J apps k (round j h).1
  round-Settled j h settled k = elim (Bool-cases (key_eq j k)) [
    | inl own ↦
        let reached =
          subst (λ i. Reached K J apps i (round j h).1) (key_eq-same j k own)
            (Settled-round K J eq_app eq_spec C apps keeps lossless j h (settled j)).1 in
        (λ e. reached, inr reached)
    | inr apart ↦ (
      λ e. cc,
      Settled-about K J apps k h (round j h).1
          (round-about K J eq_app eq_spec C apps keeps lossless j k h apart) (settled k),
    )
  ]

  -- What the work of a list of keys does to one key.
  abbrev Worked : List NamespacedName → Calls Ngloy → NamespacedName → Type 0
  Worked ks h k =
      (has k ks ≡ true → Reached K J apps k (worked ks h).1)
      × (has k ks ≡ false → about k (worked ks h).1 ≡ about k h)

  Worked-cons :
      (j : NamespacedName) (ks : List NamespacedName) (h : Calls Ngloy) (k : NamespacedName)
      → (key_eq j k ≡ true → Reached K J apps k (round j h).1)
      → Worked ks (round j h).1 k
      → Worked (j ∷ ks) h k
  unfolding work
  Worked-cons j ks h k own (within, without) = elim (Bool-cases (has k ks)) [
    | inl later ↦ (λ e. within later, λ e. ground arith)
    | inr last ↦ (
      λ e.
          Held-about K J (alive (apps k)) k (round j h).1 (worked ks (round j h).1).1 (without last)
            (own (ground arith)),
      λ e. without last ∙ round-about K J eq_app eq_spec C apps keeps lossless j k h (ground arith),
    )
  ]

  -- The work of a list of keys, where every key is settled.
  work_lem :
      (ks : List NamespacedName) (h : Calls Ngloy)
      → ((k : NamespacedName) → Settled K J apps k h)
      → ((worked ks h).0 ≡ map (λ k. expected (apps k)) ks) × ((k : NamespacedName) → Worked ks h k)
  unfolding work
  work_lem [] h settled = (refl, λ k. (λ e. cc, λ e. refl))
  work_lem (j ∷ ks) h settled =
      let after = round-Settled j h settled in
      let (outs, keys) = work_lem ks (round j h).1 (λ k. (after k).1) in
      (
        ap₂ ◌∷◌ (Settled-round K J eq_app eq_spec C apps keeps lossless j h (settled j)).0 outs,
        λ k. Worked-cons j ks h k (after k).0 (keys k),
      )

  -- What the server holds for a key, by what was there for it to do.
  held_lem :
      (o : Option Ngloy) (k : NamespacedName) (h : Calls Ngloy)
      → Held K J o k h
      → (sent_deployment (about k h) ≡ wanted_deployment K o)
        × (sent_service (about k h) ≡ wanted_service K o)
        × (creations (about k h) ≡ objects o)
  held_lem none k h fresh = fresh
  held_lem (some a) k h (dep, svc, stored, made) = (dep, svc, made)

  -- Over an API server that keeps what it is sent, from an empty start and with a lossless codec,
  -- the reconciles of any keys, in any order and repeated at will, each end well, except that those
  -- of a missing resource return NotFound. In the end the server holds, for each key that was
  -- handled and whose resource is there and not being deleted, the deployment and the service that
  -- this resource asks for, each created once; for every other key it was sent neither.
  pub work_converges :
      (ks : List NamespacedName)
      → ((work K J eq_app eq_spec C ks []).0 ≡ map (λ k. expected (apps k)) ks)
        × ((k : NamespacedName)
            → let own = about k (work K J eq_app eq_spec C ks []).1 in
              let due = if has k ks then alive (apps k) else none in
              (sent_deployment own ≡ wanted_deployment K due)
              × (sent_service own ≡ wanted_service K due)
              × (creations own ≡ objects due))
  work_converges ks =
      let (outs, keys) = work_lem ks [] (λ k. inl (refl, refl, refl)) in
      (
        outs,
        λ k. elim (Bool-cases (has k ks)) [
          | inl handled ↦
              rw handled (held_lem (alive (apps k)) k (worked ks []).1 ((keys k).0 handled))
          | inr idle ↦ rw (idle, (keys k).1 idle) (refl, refl, refl)
        ],
      )
