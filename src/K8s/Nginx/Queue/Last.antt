-- ===== src/K8s/Nginx/Queue/Last.antt =====
-- The work over any API server: the last reconcile of a key is the one that counts.
use mathlib.Core.Path.{subst}
use koko.Base.{
  ℕ, ◌≡◌, ◌≢◌, refl, sym, ap, ◌∙◌, List, [], ◌∷◌, Option, none, some, Bool, true, false,
  text_eq_refl, if◌then◌else◌, arith, Option-cases, inl, inr,
}
use koko.K8s.Types.{NamespacedName, ApiMachinery, Deployment}
use koko.K8s.Client.{other, Call, Calls, Cluster, returned}
use koko.K8s.Nginx.{
  Ngloy, NgloySpec, Codec, new_deploy, new_service, annotate, create, write_specs, update,
  reconcile_app, reconcile,
}
use koko.K8s.Nginx.Writes.{sent_deployment, sent_service}
use koko.K8s.Nginx.Frame.{key_eq, same_key, IsNamed, error_cases, reconcile-others}
use koko.K8s.Nginx.Queue.{about, work}
use koko.K8s.Nginx.Queue.Keys.{key_eq-same, about-others}

module _ (K : ApiMachinery) (J : Codec) (eq_app : Ngloy → Ngloy → Bool)
    (eq_spec : NgloySpec → NgloySpec → Bool) (C : Cluster Ngloy) where
  -- The calls made before the last reconcile of a key, if there is one.
  abbrev pub last : NamespacedName → List NamespacedName → Calls Ngloy → Option (Calls Ngloy)
  last k [] h = none
  last k (j ∷ ks) h = elim (last k ks (reconcile K J eq_app eq_spec C j h).1) [
    | some g ↦ some g
    | none ↦ if key_eq j k then some h else none
  ]

  -- The server has the specs of an app, as far as a key goes.
  abbrev pub HasSpecs : NamespacedName → Ngloy → Calls Ngloy → Type 0
  HasSpecs k app h =
      (sent_deployment (about k h) ≡ some (new_deploy K app).spec)
      × (sent_service (about k h) ≡ some (new_service K app).spec)

  module _ (named : IsNamed C)
      (sure : (h : Calls Ngloy) (k : NamespacedName) (n : ℕ) → (C.app h k).1 ≢ some (other n)) where
    create-HasSpecs :
        (k : NamespacedName) (app : Ngloy) (h : Calls Ngloy)
        → same_key app.meta k ≡ true
        → (create K J eq_app eq_spec C app h).0 ≡ returned none
        → HasSpecs k app (create K J eq_app eq_spec C app h).1
    unfolding create annotate new_deploy new_service
    create-HasSpecs k app h own fine = ground arith

    update-HasSpecs :
        (k : NamespacedName) (app : Ngloy) (h : Calls Ngloy)
        → (update K J eq_app eq_spec C k app h).0 ≡ returned none
        → HasSpecs k app (update K J eq_app eq_spec C k app h).1
    unfolding update write_specs
    update-HasSpecs k app h fine =
        let dep : Deployment = record (C.deployment h k).0 { spec = (new_deploy K app).spec } in
        let h' : Calls Ngloy = Call.update_deployment dep ∷ Call.get_deployment k ∷ h in
        ground (
          arith,
          text_eq_refl k.name,
          text_eq_refl k.namespace,
          named.deployment h k,
          named.service h' k,
        )

    reconcile-HasSpecs :
        (k : NamespacedName) (h : Calls Ngloy)
        → (C.app h k).0.meta.deletion_timestamp ≡ none
        → (reconcile K J eq_app eq_spec C k h).0 ≡ returned none
        → HasSpecs k (C.app h k).0 (reconcile K J eq_app eq_spec C k h).1
    unfolding reconcile reconcile_app
    reconcile-HasSpecs k h live fine =
        let looked : Calls Ngloy = Call.get_deployment k ∷ Call.get_app k ∷ h in
        elim (error_cases (C.app h k).1) [
          | inl found ↦ ground (
            arith,
            found,
            create-HasSpecs k (C.app h k).0 looked (named.app h k found),
            update-HasSpecs k (C.app h k).0 looked,
          )
          | inr (inl gone) ↦ ground (arith, gone)
          | inr (inr (n, failed)) ↦ absurd (sure h k n failed)
        ]

    reconcile-about :
        (j k : NamespacedName) (h : Calls Ngloy)
        → key_eq j k ≡ false
        → about k (reconcile K J eq_app eq_spec C j h).1 ≡ about k h
    reconcile-about j k h e =
        sym (about-others j k _ e)
        ∙ ap (about k) (reconcile-others K J eq_app eq_spec C j named h (sure h j))
        ∙ about-others j k h e

    -- Behind its last reconcile nothing is called about a key.
    work-about :
        (k : NamespacedName) (ks : List NamespacedName) (h : Calls Ngloy)
        → last k ks h ≡ none
        → about k (work K J eq_app eq_spec C ks h).1 ≡ about k h
    unfolding work
    work-about k [] h e = refl
    work-about k (j ∷ ks) h e =
        let h' : Calls Ngloy = (reconcile K J eq_app eq_spec C j h).1 in
        elim (Option-cases (last k ks h')) [
          | inl later ↦ work-about k ks h' later ∙ reconcile-about j k h (ground (arith, later))
          | inr (g, later) ↦ ground (arith, later)
        ]

    -- Over any API server that answers with objects of the key that it was asked for, and finds a
    -- resource or does not: whatever fails and whoever edits the resources meanwhile, if the last
    -- reconcile of a key read a resource that was not being deleted and ended well, then at the end
    -- of the work the server was last sent, for that key, the deployment and the service that the
    -- resource asked for as it was then.
    pub work_last :
        (k : NamespacedName) (ks : List NamespacedName) (h g : Calls Ngloy)
        → last k ks h ≡ some g
        → (C.app g k).0.meta.deletion_timestamp ≡ none
        → (reconcile K J eq_app eq_spec C k g).0 ≡ returned none
        → let own = about k (work K J eq_app eq_spec C ks h).1 in
          (sent_deployment own ≡ some (new_deploy K (C.app g k).0).spec)
          × (sent_service own ≡ some (new_service K (C.app g k).0).spec)
    unfolding work
    work_last k [] h g e live fine = cc
    work_last k (j ∷ ks) h g e live fine =
        let h' : Calls Ngloy = (reconcile K J eq_app eq_spec C j h).1 in
        elim (Option-cases (last k ks h')) [
          | inl later ↦
              let same : j ≡ k = key_eq-same j k (ground (arith, later)) in
              let here : h ≡ g = ground (arith, later) in
              rw (work-about k ks h' later) (
                subst (λ i. HasSpecs k (C.app g k).0 (reconcile K J eq_app eq_spec C i h).1)
                  (sym same)
                  (subst (λ m. HasSpecs k (C.app g k).0 (reconcile K J eq_app eq_spec C k m).1)
                    (sym here) (reconcile-HasSpecs k g live fine)))
          | inr (g', later) ↦ work_last k ks h' g (ground (arith, later)) live fine
        ]
