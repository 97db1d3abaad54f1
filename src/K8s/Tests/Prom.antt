-- ===== src/K8s/Tests/Prom.antt =====
-- The Prom operator at concrete inputs.
use koko.Base.{◌≡◌, refl, pos, [], ◌∷◌, none, some, Bool, true, text_eq, if◌then◌else◌}
use koko.Go.Text.{bytes}
use koko.K8s.Client.{not_found, Cluster, returned, api}
use koko.K8s.Prom.{Prom, PromSpec, Codec, reconcile}
use koko.K8s.Prom.Writes.{sent_deployment, sent_service}
use koko.K8s.Prom.Stuck.{Waits, rounds, reconcile_prom_stuck}
use koko.K8s.Tests.Fixtures.{
  machinery, key, meta, resources, http, no_types, no_deployment, no_service,
}

abbrev spec : PromSpec
spec = record {
  size = some (pos 1);
  image = bytes "prom/prometheus";
  resources = resources;
  envs = record { name = bytes "TZ"; value = bytes "UTC" } ∷ [];
  ports = http ∷ [];
}

abbrev pub app : Prom
app = record { types = no_types; meta = meta; spec = spec }

abbrev stored : Prom
stored = record app { meta = record meta { annotations = some ((bytes "spec", bytes "S") ∷ []) } }

abbrev codec : Codec
codec = record {
  marshal = λ s. some (bytes "S");
  unmarshal = λ t. if text_eq t [] then none else some app;
}

abbrev always : {A : Type 0} → A → A → Bool
always _ _ = true

abbrev running : Cluster Prom
running = record {
  app = λ h k. (stored, none);
  deployment = λ h k. (no_deployment, none);
  service = λ h k. (no_service, none);
  creates_deployment = λ h d. none;
  creates_service = λ h s. none;
  updates_app = λ h a. none;
  updates_deployment = λ h d. none;
  updates_service = λ h s. none;
}

abbrev fresh : Cluster Prom
fresh = record running { deployment = λ h k. (no_deployment, some not_found) }

fresh-Waits : Waits fresh key
fresh-Waits = record { found = λ h. refl; alive = λ h. refl; absent = λ h none_created. refl }

reconcile_prom_stuck_example :
    let calls = rounds machinery codec always always fresh key in
    ((reconcile machinery codec always always fresh key (calls 3)).0
      ≡ returned (some (api not_found)))
    × (sent_deployment (calls 3) ≡ none)
    × (sent_service (calls 3) ≡ none)
reconcile_prom_stuck_example =
    reconcile_prom_stuck machinery codec always always fresh key fresh-Waits 3
