-- ===== src/K8s/Tests/Owners.antt =====
-- Libraries that do as they document, under which the owners of both operators are read.
use koko.Base.{◌≡◌, ◌≢◌, refl, List, [], ◌∷◌, ◌++◌, All, map}
use koko.Go.Text.{Text, bytes}
use koko.K8s.Types.{ApiMachinery}
use koko.K8s.Nginx
use koko.K8s.Prom
use koko.K8s.Registration.{GroupVersion, Scheme, registered}
use koko.K8s.Registration.Owners.{IsDocumented, IsNone, owners_unregistered}
use koko.K8s.Tests.Fixtures.{machinery}
use koko.K8s.Tests.Nginx.{web}
use koko.K8s.Tests.Prom.{app}

abbrev gv_string : Text → Text → Text
gv_string [] v = v
gv_string (c ∷ g) v = (c ∷ g) ++ (bytes "/" ++ v)

abbrev scheme : Scheme
scheme = record {
  gv_string = gv_string;
  register = λ gv. map (λ k. record { group = gv.group; version = gv.version; kind = k });
}

abbrev kubernetes : ApiMachinery
kubernetes = record machinery {
  new_controller_ref = λ m g. record {
    api_version = gv_string g.group g.version;
    kind = g.kind;
    name = m.name;
    uid = m.uid;
  };
}

named : (g v : Text) → g ≢ [] → gv_string g v ≡ g ++ (bytes "/" ++ v)
named [] v some_group = absurd (some_group refl)
named (c ∷ g) v some_group = refl

registers :
    (gv : GroupVersion) (structs : List Text)
    → All (λ k. (k.group ≡ gv.group) × (k.version ≡ gv.version)) (scheme.register gv structs)
registers gv [] = tt
registers gv (s ∷ structs) = ((refl, refl), registers gv structs)

documented : IsDocumented scheme kubernetes
documented = record {
  core = λ v. refl;
  named = named;
  registers = registers;
  refers = λ m g. refl;
  core_group = refl;
  core_version = refl;
}

owners_unregistered_example : All (IsNone scheme (registered scheme)) (
    (Nginx.new_deploy kubernetes web).meta.owner_references
    ++ (Nginx.new_service kubernetes web).meta.owner_references
    ++ (Prom.new_deploy kubernetes app).meta.owner_references
    ++ (Prom.new_service kubernetes app).meta.owner_references)
owners_unregistered_example = owners_unregistered scheme kubernetes documented web app
