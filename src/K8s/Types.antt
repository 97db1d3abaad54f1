-- ===== src/K8s/Types.antt =====
-- The fields of Kubernetes' API types that the two operators set or read. A pointer, or a map that
-- may be nil, is an `Option`; a map is a list of pairs, one for each key.
pub mod Maps
use koko.Base.{ℕ, ℤ, List, [], ◌∷◌, Option, none, if◌then◌else◌, text_eq}
use koko.Go.Text.{Text, bytes}

abbrev pub Map : Type 0
Map = List (Text × Text)

-- `m[k] = v`
unfoldable pub insert : Text → Text → Map → Map
insert k v [] = (k, v) ∷ []
insert k v ((j, x) ∷ m) = if text_eq j k then (k, v) ∷ m else (j, x) ∷ insert k v m

-- `m[k]`, which is "" where the key is missing
unfoldable pub read : Text → Map → Text
read k [] = []
read k ((j, x) ∷ m) = if text_eq j k then x else read k m

pub record NamespacedName : Type 0 where
  pub namespace : Text
  pub name : Text

pub record TypeMeta : Type 0 where
  pub kind : Text
  pub api_version : Text

pub record GroupVersionKind : Type 0 where
  pub group : Text
  pub version : Text
  pub kind : Text

pub record OwnerReference : Type 0 where
  pub api_version : Text
  pub kind : Text
  pub name : Text
  pub uid : Text

pub record ObjectMeta : Type 0 where
  pub name : Text
  pub namespace : Text
  pub uid : Text
  pub resource_version : Text
  pub deletion_timestamp : Option ℕ
  pub annotations : Option Map
  pub labels : Option Map
  pub owner_references : List OwnerReference

-- The zero value, from which a composite literal starts.
abbrev pub no_meta : ObjectMeta
no_meta = record {
  name = [];
  namespace = [];
  uid = [];
  resource_version = [];
  deletion_timestamp = none;
  annotations = none;
  labels = none;
  owner_references = [];
}

pub record ResourceRequirements : Type 0 where
  pub limits : Option Map
  pub requests : Option Map

pub record EnvVar : Type 0 where
  pub name : Text
  pub value : Text

-- `intstr.IntOrString`: `kind` is 0 where the number counts, 1 where the text does.
pub record IntOrString : Type 0 where
  pub kind : ℕ
  pub int_val : ℤ
  pub str_val : Text

pub record ServicePort : Type 0 where
  pub name : Text
  pub protocol : Text
  pub port : ℤ
  pub target_port : IntOrString
  pub node_port : ℤ

pub record ContainerPort : Type 0 where
  pub name : Text
  pub container_port : ℤ
  pub protocol : Text

pub record Container : Type 0 where
  pub name : Text
  pub image : Text
  pub resources : ResourceRequirements
  pub ports : List ContainerPort
  pub image_pull_policy : Text
  pub env : List EnvVar

pub record PodTemplateSpec : Type 0 where
  pub meta : ObjectMeta
  pub containers : List Container

pub record DeploymentSpec : Type 0 where
  pub replicas : Option ℤ
  pub selector : Option Map
  pub template : PodTemplateSpec

pub record Deployment : Type 0 where
  pub types : TypeMeta
  pub meta : ObjectMeta
  pub spec : DeploymentSpec

pub record ServiceSpec : Type 0 where
  pub service_type : Text
  pub ports : List ServicePort
  pub selector : Option Map

pub record Service : Type 0 where
  pub types : TypeMeta
  pub meta : ObjectMeta
  pub spec : ServiceSpec

-- `metav1.NewControllerRef`, and `v1.SchemeGroupVersion` of the core API.
pub record ApiMachinery : Type 0 where
  pub new_controller_ref : ObjectMeta → GroupVersionKind → OwnerReference
  pub core_group : Text
  pub core_version : Text

abbrev pub pull_if_not_present : Text
pull_if_not_present = bytes "IfNotPresent"

abbrev pub node_port_type : Text
node_port_type = bytes "NodePort"
