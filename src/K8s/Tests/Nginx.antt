-- ===== src/K8s/Tests/Nginx.antt =====
-- The nginx operator at concrete inputs.
use koko.Base.{◌≢◌, ◌≡◌, ◌≤◌, refl, pos, [], ◌∷◌, none, some, Bool, true, text_eq, if◌then◌else◌}
use koko.Go.Text.{Text, bytes}
use koko.K8s.Types.{Container, ObjectMeta}
use koko.K8s.Types.{Container}
use koko.K8s.Client.{Cluster}
use koko.K8s.Nginx.Writes.{read_or_empty, annotate_round_trip}
use koko.K8s.Nginx.{
  Ngloy, NgloySpec, Codec, new_deploy, new_service, annotate, read_spec, reconcile,
}
use koko.K8s.Nginx.Writes.{sent_deployment, sent_service, writes, reconcile_always_writes}
use koko.K8s.Nginx.Converges.{live_annotations, missing, Keeps}
use koko.K8s.Tests.Fixtures.{
  machinery, key, meta, resources, http, no_types, no_deployment, no_service,
}

abbrev spec : NgloySpec
spec = record {
  size = some (pos 4);
  image = bytes "nginx:latest";
  resources = resources;
  ports = http ∷ [];
}

abbrev pub web : Ngloy
web = record { types = no_types; meta = meta; spec = spec }

-- The resource after a first reconcile.
abbrev stored : Ngloy
stored = record web { meta = record meta { annotations = some ((bytes "spec", bytes "S") ∷ []) } }

abbrev codec : Codec
codec = record {
  marshal = λ s. some (bytes "S");
  unmarshal = λ t. if text_eq t [] then none else some spec;
}

abbrev always : {A : Type 0} → A → A → Bool
always _ _ = true

-- Every call is accepted, and the deployment exists.
abbrev running : Ngloy → Cluster Ngloy
running app = record {
  app = λ h k. (app, none);
  deployment = λ h k. (no_deployment, none);
  service = λ h k. (no_service, none);
  creates_deployment = λ h d. none;
  creates_service = λ h s. none;
  updates_app = λ h a. none;
  updates_deployment = λ h d. none;
  updates_service = λ h s. none;
}

reconcile_always_writes_example :
    2 ≤ writes (reconcile machinery codec always always (running stored) key []).1
unfolding reconcile koko.K8s.Nginx.update koko.K8s.Nginx.write_specs koko.K8s.Types.read
reconcile_always_writes_example =
    reconcile_always_writes machinery codec always always (running stored) key [] refl refl

-- A server that keeps what it is sent, and gives it back.
abbrev keeper : Cluster Ngloy
keeper = record (running web) {
  app = λ h k. (record web { meta = record meta { annotations = live_annotations web h } }, none);
  deployment = λ h k. (no_deployment, missing (sent_deployment h));
  service = λ h k. (no_service, missing (sent_service h));
}

keeper-Keeps : Keeps keeper key web
keeper-Keeps = record {
  found = λ h. refl;
  same_spec = λ h. refl;
  same_name = λ h. refl;
  alive = λ h. refl;
  annotations = λ h. refl;
  deployment = λ h. refl;
  service = λ h. refl;
  accepts = λ h b. refl;
  creates_deployment = λ h d. refl;
  creates_service = λ h s. refl;
  updates_deployment = λ h d. refl;
  updates_service = λ h s. refl;
}

annotate_round_trip_example :
    (codec.unmarshal (read_spec (annotate codec web).meta.annotations) ≡ some web.spec)
    × ((k : Text)
        → k ≢ bytes "spec"
        → read_or_empty k (annotate codec web).meta.annotations
          ≡ read_or_empty k web.meta.annotations)
annotate_round_trip_example = annotate_round_trip codec web (bytes "S") refl refl
