-- ===== src/K8s/Tests/Fixtures.antt =====
-- An API library, and a resource's metadata and ports.
use koko.Base.{pos, [], none}
use koko.Go.Text.{bytes}
use koko.K8s.Types.{
  NamespacedName, TypeMeta, ObjectMeta, no_meta, ResourceRequirements, ServicePort, ApiMachinery,
  Deployment, Service,
}

abbrev pub machinery : ApiMachinery
machinery = record {
  new_controller_ref =
      λ m g. record { api_version = g.version; kind = g.kind; name = m.name; uid = m.uid };
  core_group = [];
  core_version = bytes "v1";
}

abbrev pub key : NamespacedName
key = record { namespace = bytes "default"; name = bytes "web" }

abbrev pub meta : ObjectMeta
meta = record no_meta { name = bytes "web"; namespace = bytes "default"; uid = bytes "u1" }

abbrev pub resources : ResourceRequirements
resources = record { limits = none; requests = none }

abbrev pub http : ServicePort
http = record {
  name = bytes "nginx";
  protocol = bytes "TCP";
  port = pos 80;
  target_port = record { kind = 0; int_val = pos 8080; str_val = [] };
  node_port = pos 32255;
}

abbrev pub no_types : TypeMeta
no_types = record { kind = []; api_version = [] }

abbrev pub no_deployment : Deployment
no_deployment = record {
  types = no_types;
  meta = no_meta;
  spec = record {
    replicas = none;
    selector = none;
    template = record { meta = no_meta; containers = [] };
  };
}

abbrev pub no_service : Service
no_service = record {
  types = no_types;
  meta = no_meta;
  spec = record { service_type = []; ports = []; selector = none };
}
