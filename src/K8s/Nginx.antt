-- ===== src/K8s/Nginx.antt =====
-- nginx-deploy: the operator for Ngloy resources (nginx-deploy/api/v1/ngloy_types.go and
-- nginx-deploy/controllers/ngloy_controller.go).
pub mod Desired
pub mod Writes
pub mod Converges
pub mod Frame
pub mod Queue
pub mod DeepCopy
use koko.Base.{ℤ, List, [], ◌∷◌, Option, none, some, Bool, false, not, if◌then◌else◌}
use koko.Go.Text.{Text, bytes}
use koko.K8s.Types.{
  TypeMeta, Map, insert, read, NamespacedName, OwnerReference, ObjectMeta, no_meta,
  ResourceRequirements, ServicePort, ContainerPort, Container, Deployment, Service, ApiMachinery,
  pull_if_not_present, node_port_type,
}
use koko.K8s.Client.{
  ApiError, is_not_found, json, Call, Cluster, R, pure, ◌>>=◌, ◌>>◌, return_error, call, check,
  as_failure,
}

pub record NgloySpec : Type 0 where
  pub size : Option ℤ
  pub image : Text
  pub resources : ResourceRequirements
  pub ports : List ServicePort

-- The status, an `appsv1.DeploymentStatus`, is neither read nor written.
pub record Ngloy : Type 0 where
  pub types : TypeMeta
  pub meta : ObjectMeta
  pub spec : NgloySpec

-- `json.Marshal` of a spec, whose types bring marshallers of their own, and `json.Unmarshal` into
-- one; `none` is an error.
pub record Codec : Type 0 where
  pub marshal : NgloySpec → Option Text
  pub unmarshal : Text → Option NgloySpec

abbrev pub app_label : Text → Map
app_label name = (bytes "app", name) ∷ []

unfoldable pub container_port : ServicePort → ContainerPort
container_port p = record { name = p.name; container_port = p.port; protocol = p.protocol }

-- The loop over the ports appends to a slice.
unfoldable pub container_ports : List ServicePort → List ContainerPort
unfolding container_port
container_ports [] = []
container_ports (p ∷ ps) = container_port p ∷ container_ports ps

unfoldable pub new_containers : Ngloy → List Container
unfolding container_ports
new_containers app =
    record {
      name = app.meta.name;
      image = app.spec.image;
      resources = app.spec.resources;
      ports = container_ports app.spec.ports;
      image_pull_policy = pull_if_not_present;
      env = [];
    }
    ∷ []

module _ (K : ApiMachinery) where
  abbrev pub owner : Text → Ngloy → OwnerReference
  owner kind app =
      K.new_controller_ref app.meta
        (record { group = K.core_group; version = K.core_version; kind = kind })

  unfoldable pub new_deploy : Ngloy → Deployment
  unfolding new_containers
  new_deploy app = record {
    types = record { kind = bytes "Deployment"; api_version = bytes "apps/v1" };
    meta = record no_meta {
      name = app.meta.name;
      namespace = app.meta.namespace;
      owner_references = owner (bytes "Ngloy") app ∷ [];
    };
    spec = record {
      replicas = app.spec.size;
      selector = some (app_label app.meta.name);
      template = record {
        meta = record no_meta { name = app.meta.name; labels = some (app_label app.meta.name) };
        containers = new_containers app;
      };
    };
  }

  unfoldable pub new_service : Ngloy → Service
  new_service app = record {
    types = record { kind = bytes "Service"; api_version = bytes "v1" };
    meta = record no_meta {
      name = app.meta.name;
      namespace = app.meta.namespace;
      owner_references = owner (bytes "Prom") app ∷ [];
    };
    spec = record {
      service_type = node_port_type;
      ports = app.spec.ports;
      selector = some (app_label app.meta.name);
    };
  }

-- The dynamic values that `Reconcile` hands to `reflect.DeepEqual`: pointers of two types.
pub data GoValue : Type 0 where
  ngloy : Ngloy → GoValue
  ngloy_spec : NgloySpec → GoValue

-- `DeepEqual`: values of different types never are; those of one type by the comparison given.
unfoldable pub deep_equal :
    (Ngloy → Ngloy → Bool) → (NgloySpec → NgloySpec → Bool) → GoValue → GoValue → Bool
deep_equal eq_app eq_spec (ngloy a) (ngloy b) = eq_app a b
deep_equal eq_app eq_spec (ngloy_spec a) (ngloy_spec b) = eq_spec a b
deep_equal eq_app eq_spec _ _ = false

-- The text that is stored as the annotation "spec": that of nil where marshalling fails.
abbrev pub spec_text : Option Text → Text
spec_text none = []
spec_text (some t) = t

abbrev pub with_spec : Option Map → Text → Map
with_spec none t = (bytes "spec", t) ∷ []
with_spec (some m) t = insert (bytes "spec") t m

abbrev pub read_spec : Option Map → Text
read_spec none = []
read_spec (some m) = read (bytes "spec") m

unfoldable pub annotate : Codec → Ngloy → Ngloy
annotate J nginx =
    let m = with_spec nginx.meta.annotations (spec_text (J.marshal nginx.spec)) in
    record nginx { meta = record nginx.meta { annotations = some m } }

module _ (K : ApiMachinery) (J : Codec) (eq_app : Ngloy → Ngloy → Bool)
    (eq_spec : NgloySpec → NgloySpec → Bool) (C : Cluster Ngloy) where
  -- The branch of `Reconcile` for a deployment that does not exist.
  unfoldable pub create : Ngloy → R Ngloy (Unit {0})
  unfolding annotate
  create nginx = do
    let deploy = new_deploy K nginx
    check (← call (Call.create_deployment deploy) (λ h. C.creates_deployment h deploy))
    let service = new_service K nginx
    check (← call (Call.create_service service) (λ h. C.creates_service h service))
    let annotated = annotate J nginx
    check (← call (Call.update_app annotated) (λ h. C.updates_app h annotated))
    return_error none

  -- The body of the comparison with the annotation.
  unfoldable pub write_specs : NamespacedName → Ngloy → R Ngloy (Unit {0})
  write_specs key nginx = do
    (old_dep, err) ← call (Call.get_deployment key) (λ h. C.deployment h key)
    check err
    let dep : Deployment = record old_dep { spec = (new_deploy K nginx).spec }
    check (← call (Call.update_deployment dep) (λ h. C.updates_deployment h dep))
    (old_svc, err') ← call (Call.get_service key) (λ h. C.service h key)
    check err'
    let svc : Service = record old_svc { spec = (new_service K nginx).spec }
    check (← call (Call.update_service svc) (λ h. C.updates_service h svc))

  unfoldable pub update : NamespacedName → Ngloy → R Ngloy (Unit {0})
  unfolding deep_equal
  update key nginx = elim (J.unmarshal (read_spec nginx.meta.annotations)) [
    | none ↦ return_error (some json)
    | some old ↦
        (if not (deep_equal eq_app eq_spec (ngloy nginx) (ngloy_spec old))
          then write_specs key nginx
          else pure tt)
        >> return_error none
  ]

  -- A deletion in progress is left alone.
  unfoldable pub reconcile_app : NamespacedName → Ngloy → Option ApiError → R Ngloy (Unit {0})
  reconcile_app key nginx err = elim nginx.meta.deletion_timestamp [
    | some _ ↦ return_error (as_failure err)
    | none ↦ do
      (_, err') ← call (Call.get_deployment key) (λ h. C.deployment h key)
      if is_not_found err' then create nginx else update key nginx
  ]

  -- `Reconcile`: only NotFound ends it after the first `Get`.
  unfoldable pub reconcile : NamespacedName → R Ngloy (Unit {0})
  unfolding reconcile_app
  reconcile key = do
    (nginx, err) ← call (Call.get_app key) (λ h. C.app h key)
    if is_not_found err then return_error (as_failure err) else reconcile_app key nginx err
