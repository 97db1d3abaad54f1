-- ===== src/K8s/Registration.antt =====
-- The API groups of the two operators (api/v1/groupversion_info.go of nginx-deploy and operator), and the
-- types that the `init` of ngloy_types.go and of prom_types.go registers.
pub mod Owners
use koko.Base.{List, [], ◌∷◌, ◌++◌}
use koko.Go.Text.{Text, bytes}
use koko.K8s.Types.{GroupVersionKind}

pub record GroupVersion : Type 0 where
  pub group : Text
  pub version : Text

abbrev pub ngloy_group_version : GroupVersion
ngloy_group_version = record { group = bytes "nginx.com.kblog.club"; version = bytes "v1" }

abbrev pub prom_group_version : GroupVersion
prom_group_version = record { group = bytes "prom.my.domain"; version = bytes "v1" }

-- `String` of a group and version, and `Register` of a `scheme.Builder`, which is given structs, here
-- by their names.
pub record Scheme : Type 0 where
  pub gv_string : Text → Text → Text
  pub register : GroupVersion → List Text → List GroupVersionKind

module _ (S : Scheme) where
  unfoldable pub ngloy_types : List GroupVersionKind
  ngloy_types = S.register ngloy_group_version (bytes "Ngloy" ∷ bytes "NgloyList" ∷ [])

  unfoldable pub prom_types : List GroupVersionKind
  prom_types = S.register prom_group_version (bytes "Prom" ∷ bytes "PromList" ∷ [])

  -- The types of both operators.
  unfoldable pub registered : List GroupVersionKind
  unfolding ngloy_types prom_types
  registered = ngloy_types ++ prom_types
