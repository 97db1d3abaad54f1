-- ===== src/K8s/Registration/Owners.antt =====
-- Whether an owner that a controller names is of a type that the operators register.
use koko.Base.{◌≡◌, ◌≢◌, sym, ◌∙◌, ap, List, [], ◌∷◌, ◌++◌, All, All-append}
use koko.Go.Text.{Text, bytes}
use koko.K8s.Types.{GroupVersionKind, OwnerReference, ObjectMeta, ApiMachinery}
use koko.K8s.Nginx
use koko.K8s.Nginx.{Ngloy}
use koko.K8s.Prom
use koko.K8s.Prom.{Prom}
use koko.K8s.Registration.{
  GroupVersion, ngloy_group_version, prom_group_version, Scheme, ngloy_types, prom_types,
  registered,
}

-- What Kubernetes' libraries document: how a version is printed, that types are registered under the
-- builder's, that a reference carries the version of its owner, and the name of the core API.
pub record IsDocumented (S : Scheme) (K : ApiMachinery) : Type 0 where
  pub core : (v : Text) → S.gv_string [] v ≡ v
  pub named : (g v : Text) → g ≢ [] → S.gv_string g v ≡ g ++ (bytes "/" ++ v)
  pub registers :
      (gv : GroupVersion) (structs : List Text)
      → All (λ k. (k.group ≡ gv.group) × (k.version ≡ gv.version)) (S.register gv structs)
  pub refers :
      (m : ObjectMeta) (g : GroupVersionKind)
      → (K.new_controller_ref m g).api_version ≡ S.gv_string g.group g.version
  pub core_group : K.core_group ≡ []
  pub core_version : K.core_version ≡ bytes "v1"

-- An owner is none of these types.
abbrev pub IsNone : Scheme → List GroupVersionKind → OwnerReference → Type 0
IsNone S types o =
    All (λ k. ¬ ((o.api_version ≡ S.gv_string k.group k.version) × (o.kind ≡ k.kind))) types

module _ {A : Type 0} {P Q : A → Type 0} (f : (a : A) → P a → Q a) where
  All-map : (xs : List A) → All P xs → All Q xs
  All-map [] h = tt
  All-map (x ∷ xs) h = (f x h.0, All-map xs h.1)

module _ (S : Scheme) (K : ApiMachinery) (d : IsDocumented S K) where
  -- What `NewControllerRef` gives for a kind of the core API.
  abbrev core_ref : ObjectMeta → Text → OwnerReference
  core_ref m kind =
      K.new_controller_ref m
        (record { group = K.core_group; version = K.core_version; kind = kind })

  core_owner : (m : ObjectMeta) (kind : Text) → (core_ref m kind).api_version ≡ bytes "v1"
  core_owner m kind =
      d.refers m _ ∙ ap (λ g. S.gv_string g K.core_version) d.core_group ∙ d.core _ ∙ d.core_version

  -- A version with a group is not printed as "v1" where the group starts with another letter.
  core-IsNone :
      (gv : GroupVersion) (structs : List Text) (m : ObjectMeta) (kind : Text)
      → gv.group ≢ []
      → gv.group ++ (bytes "/" ++ gv.version) ≢ bytes "v1"
      → IsNone S (S.register gv structs) (core_ref m kind)
  core-IsNone gv structs m kind some_group apart =
      All-map
        (λ k (g, v) (e, _). apart (
          sym (d.named gv.group gv.version some_group)
          ∙ ap (λ x. S.gv_string x gv.version) (sym g)
          ∙ ap (S.gv_string k.group) (sym v)
          ∙ sym e
          ∙ core_owner m kind))
        (S.register gv structs) (d.registers gv structs)

  both-IsNone : (m : ObjectMeta) (kind : Text) → IsNone S (registered S) (core_ref m kind)
  unfolding registered ngloy_types prom_types
  both-IsNone m kind =
      All-append _ (ngloy_types S) (prom_types S)
        (core-IsNone ngloy_group_version _ m kind (λ e. cc) (λ e. cc))
        (core-IsNone prom_group_version _ m kind (λ e. cc) (λ e. cc))

  -- If Kubernetes' libraries do as they document, the owners that the controllers write into the
  -- deployment and the service of an Ngloy and of a Prom are in the version "v1" of the core API: none
  -- has version and kind of a type that one of the operators registers.
  pub owners_unregistered :
      (app : Ngloy) (prom : Prom)
      → All (IsNone S (registered S)) (
          (Nginx.new_deploy K app).meta.owner_references
          ++ (Nginx.new_service K app).meta.owner_references
          ++ (Prom.new_deploy K prom).meta.owner_references
          ++ (Prom.new_service K prom).meta.owner_references)
  unfolding Nginx.new_deploy Nginx.new_service Prom.new_deploy Prom.new_service
  owners_unregistered app prom = (
    both-IsNone app.meta _,
    (both-IsNone app.meta _, (both-IsNone prom.meta _, (both-IsNone prom.meta _, tt))),
  )
