-- ===== src/K8s/Tests/NginxFrame.antt =====
-- Reconciles of two resources, on an API server that has whatever it is asked for.
use koko.Base.{◌≡◌, pos, [], ◌∷◌, none, some, true, text_eq_refl, arith}
use koko.Go.Text.{bytes}
use koko.K8s.Types.{NamespacedName, ObjectMeta, no_meta}
use koko.K8s.Client.{Call, Cluster}
use koko.K8s.Nginx.{Ngloy, Codec, reconcile}
use koko.K8s.Nginx.Frame.{same_key, others, IsNamed, reconcile-others}
use koko.K8s.Tests.Fixtures.{machinery, key, resources, http, no_types, no_deployment, no_service}

abbrev pub named : NamespacedName → ObjectMeta
named k = record no_meta {
  name = k.name;
  namespace = k.namespace;
  annotations = some ((bytes "spec", bytes "S") ∷ []);
}

abbrev pub web : NamespacedName → Ngloy
web k = record {
  types = no_types;
  meta = named k;
  spec = record {
    size = some (pos 4);
    image = bytes "nginx:latest";
    resources = resources;
    ports = http ∷ [];
  };
}

abbrev pub codec : Codec
codec = record { marshal = λ s. some (bytes "S"); unmarshal = λ t. some (web key).spec }

abbrev pub server : Cluster Ngloy
server = record {
  app = λ h k. (web k, none);
  deployment = λ h k. (record no_deployment { meta = named k }, none);
  service = λ h k. (record no_service { meta = named k }, none);
  creates_deployment = λ h d. none;
  creates_service = λ h s. none;
  updates_app = λ h a. none;
  updates_deployment = λ h d. none;
  updates_service = λ h s. none;
}

pub same_key-named : (k : NamespacedName) → same_key (named k) k ≡ true
same_key-named k = ground (arith, text_eq_refl k.name, text_eq_refl k.namespace)

pub server-IsNamed : IsNamed server
server-IsNamed = record {
  app = λ h k e. same_key-named k;
  deployment = λ h k e. same_key-named k;
  service = λ h k e. same_key-named k;
}

abbrev pub shop : NamespacedName
shop = record { namespace = bytes "default"; name = bytes "shop" }

-- The resource "web" is reconciled after a read of "shop".
reconcile-others_example :
    others key
      (reconcile machinery codec (λ a b. true) (λ a b. true) server key (Call.get_app shop ∷ [])).1
    ≡ Call.get_app shop ∷ []
reconcile-others_example =
    reconcile-others machinery codec (λ a b. true) (λ a b. true) server key server-IsNamed
      (Call.get_app shop ∷ []) (λ n e. cc)
