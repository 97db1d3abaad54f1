-- ===== src/K8s/Nginx/Converges.antt =====
-- Reconciles one after another, over an API server that keeps what it is sent.
use koko.Base.{ℕ, zero, suc, ◌≡◌, refl, ◌∙◌, sym, ap, [], ◌∷◌, Option, some, none, Bool, arith}
use koko.Go.Text.{Text}
use koko.K8s.Types.{Map, NamespacedName, Deployment, Service, ApiMachinery}
use koko.K8s.Client.{ApiError, not_found, Call, Calls, Cluster, Flow, returned}
use koko.K8s.Nginx.{
  Ngloy, NgloySpec, Codec, new_containers, new_deploy, new_service, annotate, read_spec, create,
  write_specs, update, reconcile,
}
use koko.K8s.Nginx.Writes.{sent_deployment, sent_service, annotate_round_trip}

-- The annotations of the resource as last written, over those it had at first.
abbrev pub live_annotations : Ngloy → Calls Ngloy → Option Map
live_annotations a [] = a.meta.annotations
live_annotations a (Call.update_app b ∷ h) = b.meta.annotations
live_annotations a (_ ∷ h) = live_annotations a h

-- The objects that were created.
abbrev pub creations : Calls Ngloy → ℕ
creations [] = 0
creations (Call.create_deployment _ ∷ h) = suc (creations h)
creations (Call.create_service _ ∷ h) = suc (creations h)
creations (_ ∷ h) = creations h

-- The error of a `Get`: NotFound where nothing was sent.
abbrev pub missing {ℓ} : {A : Type ℓ} → Option A → Option ApiError
missing none = some not_found
missing (some _) = none

-- An API server that accepts every write and keeps it, for a resource `a` whose spec and name stay
-- and which nobody deletes. It may change all other metadata.
pub record Keeps (C : Cluster Ngloy) (key : NamespacedName) (a : Ngloy) : Type 0 where
  pub found : (h : Calls Ngloy) → (C.app h key).1 ≡ none
  pub same_spec : (h : Calls Ngloy) → (C.app h key).0.spec ≡ a.spec
  pub same_name : (h : Calls Ngloy) → (C.app h key).0.meta.name ≡ a.meta.name
  pub alive : (h : Calls Ngloy) → (C.app h key).0.meta.deletion_timestamp ≡ none
  pub annotations : (h : Calls Ngloy) → (C.app h key).0.meta.annotations ≡ live_annotations a h
  pub deployment : (h : Calls Ngloy) → (C.deployment h key).1 ≡ missing (sent_deployment h)
  pub service : (h : Calls Ngloy) → (C.service h key).1 ≡ missing (sent_service h)
  pub accepts : (h : Calls Ngloy) (b : Ngloy) → C.updates_app h b ≡ none
  pub creates_deployment : (h : Calls Ngloy) → (d : _) → C.creates_deployment h d ≡ none
  pub creates_service : (h : Calls Ngloy) → (s : _) → C.creates_service h s ≡ none
  pub updates_deployment : (h : Calls Ngloy) → (d : _) → C.updates_deployment h d ≡ none
  pub updates_service : (h : Calls Ngloy) → (s : _) → C.updates_service h s ≡ none

module _ (K : ApiMachinery) where
  -- The specs depend on the resource's name and spec alone.
  pub new_deploy-spec :
      (a b : Ngloy)
      → a.spec ≡ b.spec
      → a.meta.name ≡ b.meta.name
      → (new_deploy K a).spec ≡ (new_deploy K b).spec
  unfolding new_deploy new_containers
  new_deploy-spec a b same_spec same_name = cc

  pub new_service-spec :
      (a b : Ngloy)
      → a.spec ≡ b.spec
      → a.meta.name ≡ b.meta.name
      → (new_service K a).spec ≡ (new_service K b).spec
  unfolding new_service
  new_service-spec a b same_spec same_name = cc

module _ (K : ApiMachinery) (J : Codec) (eq_app : Ngloy → Ngloy → Bool)
    (eq_spec : NgloySpec → NgloySpec → Bool) (C : Cluster Ngloy) (key : NamespacedName)
    (a : Ngloy) where
  abbrev round : Calls Ngloy → Flow (Unit {0}) × Calls Ngloy
  round h = reconcile K J eq_app eq_spec C key h

  -- The calls made by `n` reconciles, one after the other.
  abbrev pub rounds : ℕ → Calls Ngloy
  rounds zero = []
  rounds (suc n) = (round (rounds n)).1

  -- What holds after a reconcile that went well.
  abbrev pub Steady : Calls Ngloy → Type 0
  Steady h =
      (sent_deployment h ≡ some (new_deploy K a).spec)
      × (sent_service h ≡ some (new_service K a).spec)
      × ((s : NgloySpec) × (J.unmarshal (read_spec (live_annotations a h)) ≡ some s))
      × (creations h ≡ 2)

  module _ (keeps : Keeps C key a) where
    abbrev app_at : Calls Ngloy → Ngloy
    app_at h = (C.app h key).0

    deploys : (h : Calls Ngloy) → (new_deploy K (app_at h)).spec ≡ (new_deploy K a).spec
    deploys h = new_deploy-spec K (app_at h) a (keeps.same_spec h) (keeps.same_name h)

    serves : (h : Calls Ngloy) → (new_service K (app_at h)).spec ≡ (new_service K a).spec
    serves h = new_service-spec K (app_at h) a (keeps.same_spec h) (keeps.same_name h)

    abbrev looked : Calls Ngloy
    looked = Call.get_deployment key ∷ Call.get_app key ∷ []

    created : round [] ≡ (
      returned none,
      Call.update_app (annotate J (app_at []))
          ∷ Call.create_service (new_service K (app_at []))
          ∷ Call.create_deployment (new_deploy K (app_at []))
          ∷ Call.get_deployment key
          ∷ Call.get_app key
          ∷ [],
    )
    unfolding reconcile create
    created = ground (
      arith,
      keeps.found [],
      keeps.alive [],
      keeps.deployment (Call.get_app key ∷ []),
      keeps.creates_deployment looked (new_deploy K (app_at [])),
      keeps.creates_service (Call.create_deployment (new_deploy K (app_at [])) ∷ looked)
          (new_service K (app_at [])),
      keeps.accepts
          (Call.create_service (new_service K (app_at []))
            ∷ Call.create_deployment (new_deploy K (app_at []))
            ∷ looked)
          (annotate J (app_at [])),
    )

    updated :
        (h : Calls Ngloy)
        → Steady h
        → (dep : Deployment) × (svc : Service) × (dep.spec ≡ (new_deploy K (app_at h)).spec)
          × (svc.spec ≡ (new_service K (app_at h)).spec)
          × (round h ≡ (
            returned none,
            Call.update_service svc
                ∷ Call.get_service key
                ∷ Call.update_deployment dep
                ∷ Call.get_deployment key
                ∷ Call.get_deployment key
                ∷ Call.get_app key
                ∷ h,
          ))
    unfolding reconcile update write_specs
    updated h (dep, svc, (s, decoded), made) =
        let h1 : Calls Ngloy = Call.get_app key ∷ h in
        let h2 : Calls Ngloy = Call.get_deployment key ∷ h1 in
        let d : Deployment = record (C.deployment h2 key).0 {
          spec = (new_deploy K (app_at h)).spec;
        } in
        let h3 : Calls Ngloy = Call.get_deployment key ∷ h2 in
        let h4 : Calls Ngloy = Call.update_deployment d ∷ h3 in
        let v : Service = record (C.service h4 key).0 { spec = (new_service K (app_at h)).spec } in
        (
          d,
          v,
          refl,
          refl,
          ground (
            arith,
            keeps.found h,
            keeps.alive h,
            keeps.annotations h,
            keeps.deployment h1,
            keeps.deployment h2,
            keeps.updates_deployment h3 d,
            keeps.service h4,
            keeps.updates_service (Call.get_service key ∷ h4) v,
          ),
        )

    first_round :
        {t : Text}
        → J.marshal a.spec ≡ some t
        → J.unmarshal t ≡ some a.spec
        → ((round []).0 ≡ returned none) × Steady (round []).1
    first_round out back =
        let spec = keeps.same_spec [] in
        rw created (
          refl,
          (
            ap some (deploys []),
            ap some (serves []),
            (
              _,
              (annotate_round_trip J (app_at []) _ (ap J.marshal spec ∙ out)
                  (back ∙ ap some (sym spec))).0,
            ),
            refl,
          ),
        )

    next_round : (h : Calls Ngloy) → Steady h → ((round h).0 ≡ returned none) × Steady (round h).1
    next_round h steady =
        let (d, v, deployed, served, e) = updated h steady in
        rw e
          (refl, (ap some (deployed ∙ deploys h), ap some (served ∙ serves h), steady.2, steady.3))

    rounds-Steady :
        {t : Text}
        → J.marshal a.spec ≡ some t
        → J.unmarshal t ≡ some a.spec
        → (n : ℕ) → ((round (rounds n)).0 ≡ returned none) × Steady (rounds (suc n))
    rounds-Steady out back zero = first_round out back
    rounds-Steady out back (suc n) = next_round (rounds (suc n)) (rounds-Steady out back n).1

    -- Over an API server that keeps what it is sent, from an empty start and with a lossless codec,
    -- no reconcile fails, and after each one the server has the deployment and the service that the
    -- resource asks for, each of them created once.
    pub reconcile_converges :
        {t : Text}
        → J.marshal a.spec ≡ some t
        → J.unmarshal t ≡ some a.spec
        → (n : ℕ)
        → ((reconcile K J eq_app eq_spec C key (rounds n)).0 ≡ returned none)
          × (sent_deployment (rounds (suc n)) ≡ some (new_deploy K a).spec)
          × (sent_service (rounds (suc n)) ≡ some (new_service K a).spec)
          × (creations (rounds (suc n)) ≡ 2)
    reconcile_converges out back n =
        let (went_well, steady) = rounds-Steady out back n in
        (went_well, steady.0, steady.1, steady.3)
