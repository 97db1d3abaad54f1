-- ===== src/K8s/Prom/Stuck.antt =====
-- Reconciles one after another for a resource whose deployment nobody has created.
use koko.Base.{ℕ, zero, suc, ◌≡◌, refl, ◌∙◌, ap, [], ◌∷◌, some, none, Bool}
use koko.K8s.Types.{NamespacedName, ApiMachinery}
use koko.K8s.Client.{not_found, api, Call, Calls, Cluster, Flow, returned}
use koko.K8s.Prom.{Prom, PromSpec, Codec, reconcile}
use koko.K8s.Prom.Writes.{
  creations, sent_deployment, sent_service, reconcile_prom_never_creates, reconcile_prom_missing,
}

-- An API server that has the resource, which nobody deletes, and no deployment until one is created.
pub record Waits (C : Cluster Prom) (key : NamespacedName) : Type 0 where
  pub found : (h : Calls Prom) → (C.app h key).1 ≡ none
  pub alive : (h : Calls Prom) → (C.app h key).0.meta.deletion_timestamp ≡ none
  pub absent : (h : Calls Prom) → creations h ≡ 0 → (C.deployment h key).1 ≡ some not_found

module _ (K : ApiMachinery) (J : Codec) (eq_app : Prom → Prom → Bool)
    (eq_spec : PromSpec → PromSpec → Bool) (C : Cluster Prom) (key : NamespacedName) where
  abbrev round : Calls Prom → Flow (Unit {0}) × Calls Prom
  round h = reconcile K J eq_app eq_spec C key h

  -- The calls made by `n` reconciles, one after the other.
  abbrev pub rounds : ℕ → Calls Prom
  rounds zero = []
  rounds (suc n) = (round (rounds n)).1

  none_created : (n : ℕ) → creations (rounds n) ≡ 0
  none_created zero = refl
  none_created (suc n) =
      reconcile_prom_never_creates K J eq_app eq_spec C key (rounds n) ∙ none_created n

  module _ (waits : Waits C key) where
    fails :
        (n : ℕ)
        → round (rounds n) ≡ (
          returned (some (api not_found)),
          Call.get_deployment key ∷ Call.get_deployment key ∷ Call.get_app key ∷ rounds n,
        )
    fails n =
        reconcile_prom_missing K J eq_app eq_spec C key (rounds n) not_found not_found
          (waits.found (rounds n)) (waits.alive (rounds n))
          (waits.absent (Call.get_app key ∷ rounds n) (none_created n))
          (waits.absent (Call.get_deployment key ∷ Call.get_app key ∷ rounds n) (none_created n))

    -- On an API server that has the resource, and no deployment until one is created, the operator
    -- never gets anywhere: each of any number of reconciles returns NotFound, and nothing is ever
    -- sent for the deployment or the service.
    pub reconcile_prom_stuck :
        (n : ℕ)
        → ((reconcile K J eq_app eq_spec C key (rounds n)).0 ≡ returned (some (api not_found)))
          × (sent_deployment (rounds n) ≡ none)
          × (sent_service (rounds n) ≡ none)
    reconcile_prom_stuck zero = (ap (λ r. r.0) (fails zero), refl, refl)
    reconcile_prom_stuck (suc n) =
        let (_, deployment, service) = reconcile_prom_stuck n in
        (
          ap (λ r. r.0) (fails (suc n)),
          ap (λ r. sent_deployment r.1) (fails n) ∙ deployment,
          ap (λ r. sent_service r.1) (fails n) ∙ service,
        )
