-- ===== src/K8s/Prom.antt =====
-- operator: the operator for Prom resources (operator/api/v1/prom_types.go and
-- operator/controllers/prom_controller.go).
pub mod Desired
pub mod Writes
pub mod Stuck
pub mod DeepCopy
use koko.Base.{
  ℕ, ℤ, pos, List, [], ◌∷◌, Option, none, some, Bool, true, false, not, map, if◌then◌else◌,
}
use koko.Go.Text.{Text, bytes}
use koko.K8s.Types.{
  Map, insert, read, NamespacedName, TypeMeta, GroupVersionKind, OwnerReference, ObjectMeta,
  no_meta, ResourceRequirements, EnvVar, IntOrString, ServicePort, ContainerPort, Container,
  PodTemplateSpec, DeploymentSpec, Deployment, ServiceSpec, Service, ApiMachinery,
  pull_if_not_present, node_port_type,
}
use koko.K8s.Client.{
  is_some, ApiError, is_not_found, Failure, api, json, Call, Calls, Cluster, Flow, go, returned, R,
  pure, ◌>>=◌, ◌>>◌, return_error, call, check, as_failure,
}

pub record PromSpec : Type 0 where
  pub size : Option ℤ
  pub image : Text
  pub resources : ResourceRequirements
  pub envs : List EnvVar
  pub ports : List ServicePort

-- The status, an `appsv1.DeploymentStatus`, is neither read nor written.
pub record Prom : Type 0 where
  pub types : TypeMeta
  pub meta : ObjectMeta
  pub spec : PromSpec

-- `json.Marshal` of a spec, and `json.Unmarshal` into a whole Prom, which is what the source
-- unmarshals into; `none` is an error.
pub record Codec : Type 0 where
  pub marshal : PromSpec → Option Text
  pub unmarshal : Text → Option Prom

abbrev pub app_label : Text → Map
app_label name = (bytes "app", name) ∷ []

-- A container port has the number of the target port, and nothing else set.
unfoldable pub container_port : ServicePort → ContainerPort
container_port p = record { name = []; container_port = p.target_port.int_val; protocol = [] }

unfoldable pub container_ports : List ServicePort → List ContainerPort
unfolding container_port
container_ports [] = []
container_ports (p ∷ ps) = container_port p ∷ container_ports ps

unfoldable pub new_containers : Prom → List Container
unfolding container_ports
new_containers app =
    record {
      name = app.meta.name;
      image = app.spec.image;
      resources = app.spec.resources;
      ports = container_ports app.spec.ports;
      image_pull_policy = pull_if_not_present;
      env = app.spec.envs;
    }
    ∷ []

module _ (K : ApiMachinery) where
  abbrev pub owner : Text → Prom → OwnerReference
  owner kind app =
      K.new_controller_ref app.meta
        (record { group = K.core_group; version = K.core_version; kind = kind })

  -- No kind is given for the owner.
  unfoldable pub new_deploy : Prom → Deployment
  unfolding new_containers
  new_deploy app = record {
    types = record { kind = bytes "Deployment"; api_version = bytes "apps/v1" };
    meta = record no_meta {
      name = app.meta.name;
      namespace = app.meta.namespace;
      owner_references = owner [] app ∷ [];
    };
    spec = record {
      replicas = app.spec.size;
      selector = some (app_label app.meta.name);
      template = record {
        meta = record no_meta { labels = some (app_label app.meta.name) };
        containers = new_containers app;
      };
    };
  }

  unfoldable pub new_service : Prom → Service
  new_service app = record {
    types = record { kind = bytes "Service"; api_version = bytes "v1" };
    meta = record no_meta {
      name = app.meta.name;
      namespace = app.meta.namespace;
      owner_references = owner (bytes "Prom") app ∷ [];
    };
    spec = record {
      service_type = node_port_type;
      ports = app.spec.ports;
      selector = some (app_label app.meta.name);
    };
  }

-- The dynamic values that `Reconcile` hands to `reflect.DeepEqual`: a struct and a pointer.
pub data GoValue : Type 0 where
  prom_spec : PromSpec → GoValue
  prom : Prom → GoValue

-- `DeepEqual`: values of different types never are; those of one type by the comparison given.
unfoldable pub deep_equal :
    (Prom → Prom → Bool) → (PromSpec → PromSpec → Bool) → GoValue → GoValue → Bool
deep_equal eq_app eq_spec (prom a) (prom b) = eq_app a b
deep_equal eq_app eq_spec (prom_spec a) (prom_spec b) = eq_spec a b
deep_equal eq_app eq_spec _ _ = false

-- The text that is stored as the annotation "spec": that of nil where marshalling fails.
abbrev pub spec_text : Option Text → Text
spec_text none = []
spec_text (some t) = t

abbrev pub with_spec : Option Map → Text → Map
with_spec none t = (bytes "spec", t) ∷ []
with_spec (some m) t = insert (bytes "spec") t m

abbrev pub read_spec : Option Map → Text
read_spec none = []
read_spec (some m) = read (bytes "spec") m

unfoldable pub annotate : Codec → Prom → Prom
annotate J app =
    let m = with_spec app.meta.annotations (spec_text (J.marshal app.spec)) in
    record app { meta = record app.meta { annotations = some m } }

-- The error of a failed `Get`: nil for NotFound, as the request is done with.
abbrev get_failure : ApiError → Option Failure
get_failure ApiError.not_found = none
get_failure e = some (api e)

module _ (K : ApiMachinery) (J : Codec) (eq_app : Prom → Prom → Bool)
    (eq_spec : PromSpec → PromSpec → Bool) (C : Cluster Prom) where
  -- The branch of `Reconcile` after a `Get` of the deployment that failed. Both objects are read,
  -- into the objects just made, where the comments say that they are created.
  unfoldable pub create : NamespacedName → Prom → R Prom (Unit {0})
  unfolding annotate
  create key app = do
    (_, err) ← call (Call.get_deployment key) (λ h. C.deployment h key)
    check err
    (_, err') ← call (Call.get_service key) (λ h. C.service h key)
    check err'
    let annotated = annotate J app
    check (← call (Call.update_app annotated) (λ h. C.updates_app h annotated))
    return_error none

  -- The body of the comparison. The service that is read is dropped for the new one.
  unfoldable pub write_specs : NamespacedName → Prom → R Prom (Unit {0})
  write_specs key app = do
    (old_deploy, err) ← call (Call.get_deployment key) (λ h. C.deployment h key)
    check err
    let deploy : Deployment = record old_deploy { spec = (new_deploy K app).spec }
    check (← call (Call.update_deployment deploy) (λ h. C.updates_deployment h deploy))
    let service = new_service K app
    (_, err') ← call (Call.get_service key) (λ h. C.service h key)
    check err'
    check (← call (Call.update_service service) (λ h. C.updates_service h service))

  unfoldable pub update : NamespacedName → Prom → R Prom (Unit {0})
  unfolding deep_equal
  update key app = elim (J.unmarshal (read_spec app.meta.annotations)) [
    | none ↦ return_error (some json)
    | some old_spec ↦
        (if not (deep_equal eq_app eq_spec (prom_spec app.spec) (prom old_spec))
          then write_specs key app
          else pure tt)
        >> return_error none
  ]

  unfoldable pub reconcile_app : NamespacedName → Prom → R Prom (Unit {0})
  reconcile_app key app = elim app.meta.deletion_timestamp [
    | some _ ↦ return_error none
    | none ↦ do
      (_, err1) ← call (Call.get_deployment key) (λ h. C.deployment h key)
      if is_some err1 then create key app else update key app
  ]

  -- `Reconcile`
  unfoldable pub reconcile : NamespacedName → R Prom (Unit {0})
  unfolding reconcile_app
  reconcile key = do
    (app, err) ← call (Call.get_app key) (λ h. C.app h key)
    elim err [ some e ↦ return_error (get_failure e) | none ↦ reconcile_app key app ]
