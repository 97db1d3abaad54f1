-- ===== src/K8s/Nginx/Queue/Rounds.antt =====
-- One reconcile of a key, at any point of the work.
use koko.Base.{ℕ, ◌≡◌, refl, ap, ◌∙◌, sym, suc, ◌∷◌, none, some, Bool, true, text_eq_refl, arith}
use koko.Go.Text.{Text}
use koko.K8s.Types.{NamespacedName, ApiMachinery, Deployment, Service}
use koko.K8s.Client.{Call, Calls, Cluster, Flow, returned, api, not_found}
use koko.K8s.Nginx.{
  Ngloy, NgloySpec, Codec, new_deploy, new_service, annotate, read_spec, create, write_specs,
  update, reconcile_app, reconcile,
}
use koko.K8s.Nginx.Writes.{sent_deployment, sent_service, annotate_round_trip}
use koko.K8s.Nginx.Converges.{live_annotations, creations, new_deploy-spec, new_service-spec}
use koko.K8s.Nginx.Frame.{same_key}
use koko.K8s.Nginx.Queue.{about, Resources, KeepsAll}

-- Nothing was sent for a key.
abbrev pub Fresh : NamespacedName → Calls Ngloy → Type 0
Fresh k h =
    (sent_deployment (about k h) ≡ none)
    × (sent_service (about k h) ≡ none)
    × (creations (about k h) ≡ 0)

-- What holds of a key after a reconcile that went well.
abbrev pub Steady : ApiMachinery → Codec → NamespacedName → Ngloy → Calls Ngloy → Type 0
Steady K J k a h =
    (sent_deployment (about k h) ≡ some (new_deploy K a).spec)
    × (sent_service (about k h) ≡ some (new_service K a).spec)
    × ((s : NgloySpec) × (J.unmarshal (read_spec (live_annotations a (about k h))) ≡ some s))
    × (creations (about k h) ≡ 2)

module _ (K : ApiMachinery) (J : Codec) (eq_app : Ngloy → Ngloy → Bool)
    (eq_spec : NgloySpec → NgloySpec → Bool) (C : Cluster Ngloy) (apps : Resources)
    (keeps : KeepsAll C apps) (key : NamespacedName) (h : Calls Ngloy) where
  abbrev round : Flow (Unit {0}) × Calls Ngloy
  round = reconcile K J eq_app eq_spec C key h

  abbrev app : Ngloy
  app = (C.app h key).0

  abbrev looked : Calls Ngloy
  looked = Call.get_deployment key ∷ Call.get_app key ∷ h

  pub absent_round :
      apps key ≡ none → round ≡ (returned (some (api not_found)), Call.get_app key ∷ h)
  unfolding reconcile
  absent_round gone = ground (arith, keeps.absent h key gone)

  pub deleting_round :
      (a : Ngloy) {t : ℕ}
      → apps key ≡ some a
      → a.meta.deletion_timestamp ≡ some t
      → round ≡ (returned none, Call.get_app key ∷ h)
  unfolding reconcile reconcile_app
  deleting_round a there going =
      ground (arith, keeps.found h key a there, keeps.same_deletion h key a there)

  -- A key without a deployment: both objects are created.
  created_round :
      (a : Ngloy)
      → apps key ≡ some a
      → a.meta.deletion_timestamp ≡ none
      → sent_deployment (about key h) ≡ none
      → round ≡ (
        returned none,
        Call.update_app (annotate J app)
            ∷ Call.create_service (new_service K app)
            ∷ Call.create_deployment (new_deploy K app)
            ∷ looked,
      )
  unfolding reconcile reconcile_app create
  created_round a there live nothing =
      let h1 : Calls Ngloy = Call.create_deployment (new_deploy K app) ∷ looked in
      let h2 : Calls Ngloy = Call.create_service (new_service K app) ∷ h1 in
      ground (
        arith,
        keeps.found h key a there,
        keeps.same_deletion h key a there,
        keeps.deployment (Call.get_app key ∷ h) key,
        text_eq_refl key.name,
        text_eq_refl key.namespace,
        keeps.creates_deployment looked (new_deploy K app),
        keeps.creates_service h1 (new_service K app),
        keeps.accepts h2 (annotate J app),
      )

  -- A key with both objects: their specs are written again.
  abbrev written : Deployment → Service → Calls Ngloy
  written d v =
      Call.update_service v
      ∷ Call.get_service key
      ∷ Call.update_deployment d
      ∷ Call.get_deployment key
      ∷ looked

  updated_round :
      (a : Ngloy)
      → apps key ≡ some a
      → a.meta.deletion_timestamp ≡ none
      → Steady K J key a h
      → (d : Deployment) × (v : Service) × (d.spec ≡ (new_deploy K app).spec)
        × (v.spec ≡ (new_service K app).spec)
        × (same_key d.meta key ≡ true)
        × (same_key v.meta key ≡ true)
        × (round ≡ (returned none, written d v))
  unfolding reconcile reconcile_app update write_specs
  updated_round a there live (dep, svc, (s, decoded), made) =
      let h1 : Calls Ngloy = Call.get_app key ∷ h in
      let h3 : Calls Ngloy = Call.get_deployment key ∷ looked in
      let d : Deployment = record (C.deployment looked key).0 { spec = (new_deploy K app).spec } in
      let h4 : Calls Ngloy = Call.update_deployment d ∷ h3 in
      let v : Service = record (C.service h4 key).0 { spec = (new_service K app).spec } in
      let own = text_eq_refl key.name in
      let own' = text_eq_refl key.namespace in
      let d_named : same_key d.meta key ≡ true =
        ground (arith, own, own', keeps.deployment looked key, keeps.deployment_named looked key) in
      let v_named : same_key v.meta key ≡ true =
        ground (arith, own, own', d_named, keeps.service h4 key, keeps.service_named h4 key) in
      (
        d,
        v,
        refl,
        refl,
        d_named,
        v_named,
        ground (
          arith,
          own,
          own',
          d_named,
          keeps.found h key a there,
          keeps.same_deletion h key a there,
          keeps.annotations h key a there,
          keeps.deployment h1 key,
          keeps.deployment looked key,
          keeps.updates_deployment h3 d,
          keeps.service h4 key,
          keeps.updates_service (Call.get_service key ∷ h4) v,
        ),
      )

  deploys : (a : Ngloy) → apps key ≡ some a → (new_deploy K app).spec ≡ (new_deploy K a).spec
  deploys a there =
      new_deploy-spec K app a (keeps.same_spec h key a there) (keeps.same_name h key a there)

  serves : (a : Ngloy) → apps key ≡ some a → (new_service K app).spec ≡ (new_service K a).spec
  serves a there =
      new_service-spec K app a (keeps.same_spec h key a there) (keeps.same_name h key a there)

  -- The calls of both kinds of reconcile are all about the key.
  created-about :
      same_key app.meta key ≡ true
      → about key (
          Call.update_app (annotate J app)
          ∷ Call.create_service (new_service K app)
          ∷ Call.create_deployment (new_deploy K app)
          ∷ looked)
        ≡ Call.update_app (annotate J app)
          ∷ Call.create_service (new_service K app)
          ∷ Call.create_deployment (new_deploy K app)
          ∷ Call.get_deployment key
          ∷ Call.get_app key
          ∷ about key h
  unfolding annotate new_deploy new_service
  created-about named = ground (arith, text_eq_refl key.name, text_eq_refl key.namespace)

  written-about :
      (d : Deployment) (v : Service)
      → same_key d.meta key ≡ true
      → same_key v.meta key ≡ true
      → about key (written d v)
        ≡ Call.update_service v
          ∷ Call.get_service key
          ∷ Call.update_deployment d
          ∷ Call.get_deployment key
          ∷ Call.get_deployment key
          ∷ Call.get_app key
          ∷ about key h
  written-about d v d_named v_named =
      ground (arith, text_eq_refl key.name, text_eq_refl key.namespace)

  pub first_round :
      (a : Ngloy) {t : Text}
      → apps key ≡ some a
      → a.meta.deletion_timestamp ≡ none
      → J.marshal a.spec ≡ some t
      → J.unmarshal t ≡ some a.spec
      → Fresh key h
      → (round.0 ≡ returned none) × Steady K J key a round.1
  first_round a there live out back fresh =
      let spec = keeps.same_spec h key a there in
      rw (created_round a there live fresh.0, created-about (keeps.named h key a there))
        (
          refl,
          (
            ap some (deploys a there),
            ap some (serves a there),
            (
              _,
              (annotate_round_trip J app _ (ap J.marshal spec ∙ out) (back ∙ ap some (sym spec))).0,
            ),
            ap (λ n. suc (suc n)) fresh.2,
          ),
        )

  pub next_round :
      (a : Ngloy)
      → apps key ≡ some a
      → a.meta.deletion_timestamp ≡ none
      → Steady K J key a h
      → (round.0 ≡ returned none) × Steady K J key a round.1
  next_round a there live steady =
      let (d, v, deployed, served, d_named, v_named, e) = updated_round a there live steady in
      rw (e, written-about d v d_named v_named)
        (
          refl,
          (
            ap some (deployed ∙ deploys a there),
            ap some (served ∙ serves a there),
            steady.2,
            steady.3,
          ),
        )
