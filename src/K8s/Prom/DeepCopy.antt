-- ===== src/K8s/Prom/DeepCopy.antt =====
-- operator/api/v1/zz_generated.deepcopy.go, over a memory of cells. The structs of Kubernetes'
-- API that a Prom contains copy themselves by functions of their own, which are parameters.
pub mod Laws
use koko.Base.{ℕ, ℤ, Option, none, some}
use koko.Go.Text.{Text}
use koko.K8s.Types.{TypeMeta}
use koko.K8s.Heap.{Heap, Kind, Slice, H, ◌>>=◌, pure, copy_slice, copy_pointer, if_not_nil}

pub record PromSpec (R : Type 0) : Type 0 where
  pub size : Option ℕ
  pub image : Text
  pub resources : R
  pub envs : Option Slice
  pub ports : Option Slice

pub record PromStatus (S : Type 0) : Type 0 where
  pub deployment_status : S

pub record Prom (M R S : Type 0) : Type 0 where
  pub types : TypeMeta
  pub meta : M
  pub spec : PromSpec R
  pub status : PromStatus S

pub record PromList (L : Type 0) : Type 0 where
  pub types : TypeMeta
  pub meta : L
  pub items : Option Slice

-- `DeepCopyInto` of ObjectMeta, ListMeta, ResourceRequirements, DeploymentStatus, EnvVar and ServicePort.
pub record Foreign (C M L R S E P : Type 0) : Type 0 where
  pub copy_meta : M → H C M
  pub copy_list_meta : L → H C L
  pub copy_resources : R → H C R
  pub copy_status : S → H C S
  pub copy_env : E → H C E
  pub copy_port : P → H C P

-- What cells hold.
pub record Kinds (C M L R S E P : Type 0) : Type 0 where
  pub int32 : Kind ℤ C
  pub env : Kind E C
  pub port : Kind P C
  pub spec : Kind (PromSpec R) C
  pub status : Kind (PromStatus S) C
  pub prom : Kind (Prom M R S) C
  pub list : Kind (PromList L) C

module _ {C M L R S E P : Type 0} (K : Kinds C M L R S E P) (F : Foreign C M L R S E P) where
  -- `**out = **in` copies a number.
  unfoldable pub spec_deep_copy_into : PromSpec R → H C (PromSpec R)
  spec_deep_copy_into spec = do
    size ← if_not_nil (copy_pointer K.int32 (λ n. pure n)) spec.size
    resources ← F.copy_resources spec.resources
    envs ← if_not_nil (copy_slice K.env F.copy_env) spec.envs
    ports ← if_not_nil (copy_slice K.port F.copy_port) spec.ports
    pure (record spec { size = size; resources = resources; envs = envs; ports = ports })

  unfoldable pub status_deep_copy_into : PromStatus S → H C (PromStatus S)
  status_deep_copy_into status = do
    deployment_status ← F.copy_status status.deployment_status
    pure (record status { deployment_status = deployment_status })

  unfoldable pub deep_copy_into : Prom M R S → H C (Prom M R S)
  deep_copy_into app = do
    meta ← F.copy_meta app.meta
    spec ← spec_deep_copy_into app.spec
    status ← status_deep_copy_into app.status
    pure (record app { meta = meta; spec = spec; status = status })

  unfoldable pub list_deep_copy_into : PromList L → H C (PromList L)
  list_deep_copy_into list = do
    meta ← F.copy_list_meta list.meta
    items ← if_not_nil (copy_slice K.prom deep_copy_into) list.items
    pure (record list { meta = meta; items = items })

  -- `DeepCopy` of the four types, from a pointer to a pointer.
  unfoldable pub spec_deep_copy : Option ℕ → H C (Option ℕ)
  spec_deep_copy = if_not_nil (copy_pointer K.spec spec_deep_copy_into)

  unfoldable pub status_deep_copy : Option ℕ → H C (Option ℕ)
  status_deep_copy = if_not_nil (copy_pointer K.status status_deep_copy_into)

  unfoldable pub deep_copy : Option ℕ → H C (Option ℕ)
  deep_copy = if_not_nil (copy_pointer K.prom deep_copy_into)

  unfoldable pub list_deep_copy : Option ℕ → H C (Option ℕ)
  list_deep_copy = if_not_nil (copy_pointer K.list list_deep_copy_into)

-- `if c := in.DeepCopy(); c != nil { return c }; return nil`: a nil pointer becomes a nil interface.
abbrev as_object : Option ℕ → Option ℕ
as_object none = none
as_object (some p) = some p

module _ {C M L R S E P : Type 0} (K : Kinds C M L R S E P) (F : Foreign C M L R S E P) where
  unfoldable pub deep_copy_object : Option ℕ → H C (Option ℕ)
  deep_copy_object app = do c ← deep_copy K F app; pure (as_object c)

  unfoldable pub list_deep_copy_object : Option ℕ → H C (Option ℕ)
  list_deep_copy_object list = do c ← list_deep_copy K F list; pure (as_object c)
