-- ===== src/K8s/Nginx/Queue.antt =====
-- Many resources: the reconciles that controller-runtime asks for, one key after another, in
-- whatever order and as often as it likes, over an API server that keeps what it is sent
-- (nginx-deploy/controllers/ngloy_controller.go).
pub mod Keys
pub mod Rounds
pub mod Settled
pub mod Outcome
pub mod Last
use koko.Base.{ℕ, false, ◌≡◌, List, [], ◌∷◌, Option, none, some, Bool, true, ◌||◌, if◌then◌else◌}
use koko.K8s.Types.{NamespacedName, DeploymentSpec, ServiceSpec, ApiMachinery}
use koko.K8s.Client.{ApiError, not_found, Call, Calls, Cluster, Flow, Failure, api, returned}
use koko.K8s.Nginx.{Ngloy, NgloySpec, Codec, new_deploy, new_service, reconcile}
use koko.K8s.Nginx.Writes.{sent_deployment, sent_service}
use koko.K8s.Nginx.Converges.{live_annotations, missing}
use koko.K8s.Nginx.Frame.{key_eq, same_key, concerns}

-- The calls for objects under a key.
abbrev pub about : NamespacedName → Calls Ngloy → Calls Ngloy
about k [] = []
about k (c ∷ h) = if concerns k c then c ∷ about k h else about k h

abbrev pub has : NamespacedName → List NamespacedName → Bool
has k [] = false
has k (j ∷ js) = key_eq j k || has k js

module _ (K : ApiMachinery) (J : Codec) (eq_app : Ngloy → Ngloy → Bool)
    (eq_spec : NgloySpec → NgloySpec → Bool) (C : Cluster Ngloy) where
  -- What the reconciles of a list of keys return, and the calls made in the end.
  unfoldable pub work : List NamespacedName → Calls Ngloy → List (Flow (Unit {0})) × Calls Ngloy
  work [] h = ([], h)
  work (k ∷ ks) h =
      let (out, h') = reconcile K J eq_app eq_spec C k h in
      let (outs, h'') = work ks h' in (out ∷ outs, h'')

-- The resources that exist, as their owners wrote them: under every key one or none, and perhaps
-- one that is being deleted.
abbrev pub Resources : Type 0
Resources = NamespacedName → Option Ngloy

-- An API server that accepts every write and keeps it, and gives the objects of the key that it is
-- asked for. Of each resource it may change all metadata but the name, the annotations that were
-- written and whether it is being deleted.
pub record KeepsAll (C : Cluster Ngloy) (apps : Resources) : Type 0 where
  pub absent :
      (h : Calls Ngloy) (k : NamespacedName) → apps k ≡ none → (C.app h k).1 ≡ some not_found
  pub found :
      (h : Calls Ngloy) (k : NamespacedName) (a : Ngloy) → apps k ≡ some a → (C.app h k).1 ≡ none
  pub named :
      (h : Calls Ngloy) (k : NamespacedName) (a : Ngloy)
      → apps k ≡ some a
      → same_key (C.app h k).0.meta k ≡ true
  pub same_name :
      (h : Calls Ngloy) (k : NamespacedName) (a : Ngloy)
      → apps k ≡ some a
      → (C.app h k).0.meta.name ≡ a.meta.name
  pub same_spec :
      (h : Calls Ngloy) (k : NamespacedName) (a : Ngloy)
      → apps k ≡ some a
      → (C.app h k).0.spec ≡ a.spec
  pub same_deletion :
      (h : Calls Ngloy) (k : NamespacedName) (a : Ngloy)
      → apps k ≡ some a
      → (C.app h k).0.meta.deletion_timestamp ≡ a.meta.deletion_timestamp
  pub annotations :
      (h : Calls Ngloy) (k : NamespacedName) (a : Ngloy)
      → apps k ≡ some a
      → (C.app h k).0.meta.annotations ≡ live_annotations a (about k h)
  pub deployment :
      (h : Calls Ngloy) (k : NamespacedName)
      → (C.deployment h k).1 ≡ missing (sent_deployment (about k h))
  pub deployment_named :
      (h : Calls Ngloy) (k : NamespacedName)
      → (C.deployment h k).1 ≡ none
      → same_key (C.deployment h k).0.meta k ≡ true
  pub service :
      (h : Calls Ngloy) (k : NamespacedName)
      → (C.service h k).1 ≡ missing (sent_service (about k h))
  pub service_named :
      (h : Calls Ngloy) (k : NamespacedName)
      → (C.service h k).1 ≡ none
      → same_key (C.service h k).0.meta k ≡ true
  pub accepts : (h : Calls Ngloy) (b : Ngloy) → C.updates_app h b ≡ none
  pub creates_deployment : (h : Calls Ngloy) → (d : _) → C.creates_deployment h d ≡ none
  pub creates_service : (h : Calls Ngloy) → (s : _) → C.creates_service h s ≡ none
  pub updates_deployment : (h : Calls Ngloy) → (d : _) → C.updates_deployment h d ≡ none
  pub updates_service : (h : Calls Ngloy) → (s : _) → C.updates_service h s ≡ none

-- What is wanted of the server for a resource: nothing where there is none, and nothing new where
-- it is being deleted.
abbrev pub alive : Option Ngloy → Option Ngloy
alive none = none
alive (some a) = elim a.meta.deletion_timestamp [ none ↦ some a | some _ ↦ none ]

abbrev pub wanted_deployment : ApiMachinery → Option Ngloy → Option DeploymentSpec
wanted_deployment K none = none
wanted_deployment K (some a) = some (new_deploy K a).spec

abbrev pub wanted_service : ApiMachinery → Option Ngloy → Option ServiceSpec
wanted_service K none = none
wanted_service K (some a) = some (new_service K a).spec

abbrev pub objects : Option Ngloy → ℕ
objects none = 0
objects (some _) = 2

-- A reconcile fails only where the resource is gone.
abbrev pub expected : Option Ngloy → Flow (Unit {0})
expected none = returned (some (api not_found))
expected (some _) = returned none

-- The codec is lossless on the specs of the resources that exist.
abbrev pub Lossless : Codec → Resources → Type 0
Lossless J apps =
    (k : NamespacedName) (a : Ngloy)
    → apps k ≡ some a
    → (t : _) × (J.marshal a.spec ≡ some t) × (J.unmarshal t ≡ some a.spec)
