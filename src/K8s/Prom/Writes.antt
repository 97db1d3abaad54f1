-- ===== src/K8s/Prom/Writes.antt =====
-- What a `Reconcile` of the Prom operator has written when it returns.
use koko.Base.{ℕ, suc, ◌≡◌, [], ◌∷◌, Option, some, none, Bool, arith}
use koko.K8s.Types.{NamespacedName, DeploymentSpec, Service, ApiMachinery}
use koko.K8s.Client.{ApiError, api, Call, Calls, Cluster, returned}
use koko.K8s.Prom.{
  Prom, PromSpec, Codec, new_deploy, new_service, create, write_specs, update, reconcile,
}

-- How many deployments and services were created.
abbrev pub creations : Calls Prom → ℕ
creations [] = 0
creations (Call.create_deployment _ ∷ h) = suc (creations h)
creations (Call.create_service _ ∷ h) = suc (creations h)
creations (_ ∷ h) = creations h

-- What was last sent to the API server for the deployment (its spec) and for the service.
abbrev pub sent_deployment : Calls Prom → Option DeploymentSpec
sent_deployment [] = none
sent_deployment (Call.create_deployment d ∷ h) = some d.spec
sent_deployment (Call.update_deployment d ∷ h) = some d.spec
sent_deployment (_ ∷ h) = sent_deployment h

abbrev pub sent_service : Calls Prom → Option Service
sent_service [] = none
sent_service (Call.create_service s ∷ h) = some s
sent_service (Call.update_service s ∷ h) = some s
sent_service (_ ∷ h) = sent_service h

module _ (K : ApiMachinery) (J : Codec) (eq_app : Prom → Prom → Bool)
    (eq_spec : PromSpec → PromSpec → Bool) (C : Cluster Prom) (key : NamespacedName)
    (h : Calls Prom) where
  -- The resource that `Reconcile` reads.
  abbrev pub subject : Prom
  subject = (C.app h key).0

  -- The error of the first read of the deployment.
  abbrev pub first_look : Option ApiError
  first_look = (C.deployment (Call.get_app key ∷ h) key).1

  -- The operator never creates a deployment or a service, whatever the API server answers.
  pub reconcile_prom_never_creates :
      creations (reconcile K J eq_app eq_spec C key h).1 ≡ creations h
  unfolding reconcile create update write_specs
  reconcile_prom_never_creates = ground arith

  -- Where the deployment exists, a reconcile that returns no error for a resource that is found and
  -- not being deleted has sent the spec and the service that the resource asks for.
  pub reconcile_prom_sent :
      (C.app h key).1 ≡ none
      → subject.meta.deletion_timestamp ≡ none
      → first_look ≡ none
      → (reconcile K J eq_app eq_spec C key h).0 ≡ returned none
      → (sent_deployment (reconcile K J eq_app eq_spec C key h).1
          ≡ some (new_deploy K subject).spec)
        × (sent_service (reconcile K J eq_app eq_spec C key h).1 ≡ some (new_service K subject))
  unfolding reconcile update write_specs
  reconcile_prom_sent found live exists e = ground arith

  -- A deployment that cannot be read is read again, and nothing is written: the error of the second
  -- read is returned.
  pub reconcile_prom_missing :
      (e e' : ApiError)
      → (C.app h key).1 ≡ none
      → subject.meta.deletion_timestamp ≡ none
      → first_look ≡ some e
      → (C.deployment (Call.get_deployment key ∷ Call.get_app key ∷ h) key).1 ≡ some e'
      → reconcile K J eq_app eq_spec C key h ≡ (
        returned (some (api e')),
        Call.get_deployment key ∷ Call.get_deployment key ∷ Call.get_app key ∷ h,
      )
  unfolding reconcile create
  reconcile_prom_missing e e' found live gone still = ground arith
