-- ===== src/K8s/Tests/NginxQueue.antt =====
-- Reconciles of three keys, one of a resource, one of a resource that is being deleted and one of
-- none, on an API server that keeps what it is sent.
use koko.Base.{
  Option, ◌≡◌, refl, ap, sym, ◌∙◌, List, [], ◌∷◌, none, some, Bool, true, if◌then◌else◌, arith,
}
use koko.Go.Text.{bytes}
use koko.K8s.Types.{NamespacedName}
use koko.K8s.Client.{ApiError, Cluster, Calls, not_found, api, returned}
use koko.K8s.Nginx.{reconcile, new_deploy, new_service, Ngloy}
use koko.K8s.Nginx.Writes.{sent_deployment, sent_service}
use koko.K8s.Nginx.Converges.{live_annotations, creations, missing}
use koko.K8s.Nginx.Frame.{key_eq, same_key}
use koko.K8s.Nginx.Queue.{
  about, work, Resources, KeepsAll, Lossless, has, alive, objects, wanted_deployment,
  wanted_service,
}
use koko.K8s.Nginx.Queue.Last.{work_last}
use koko.K8s.Nginx.Queue.Outcome.{work_converges}
use koko.K8s.Tests.NginxFrame.{server-IsNamed, web, named, shop, codec, server, same_key-named}
use koko.K8s.Tests.Fixtures.{machinery, key, no_deployment, no_service}

abbrev going : NamespacedName → Ngloy
going k = record (web k) { meta = record (named k) { deletion_timestamp = some 1 } }

abbrev apps : Resources
apps k = if key_eq k key then some (web k) else if key_eq k shop then some (going k) else none

-- What `Get` gives for a resource, with the annotations that were last written.
abbrev answer : NamespacedName → Calls Ngloy → Option Ngloy → Ngloy × Option ApiError
answer k h none = (web k, some not_found)
answer k h (some a) =
    (record a { meta = record a.meta { annotations = live_annotations a (about k h) } }, none)

abbrev keeper : Cluster Ngloy
keeper = record server {
  app = λ h k. answer k h (apps k);
  deployment =
      λ h k. (record no_deployment { meta = named k }, missing (sent_deployment (about k h)));
  service = λ h k. (record no_service { meta = named k }, missing (sent_service (about k h)));
}

apps-named : (k : NamespacedName) (a : Ngloy) → apps k ≡ some a → same_key a.meta k ≡ true
apps-named k a e = ground (arith, same_key-named k)

apps-spec : (k : NamespacedName) (a : Ngloy) → apps k ≡ some a → a.spec ≡ (web key).spec
apps-spec k a e = ground arith

keeper-KeepsAll : KeepsAll keeper apps
keeper-KeepsAll = record {
  absent = λ h k e. ap (λ o. (answer k h o).1) e;
  found = λ h k a e. ap (λ o. (answer k h o).1) e;
  named = λ h k a e. ap (λ o. same_key (answer k h o).0.meta k) e ∙ apps-named k a e;
  same_name = λ h k a e. ap (λ o. (answer k h o).0.meta.name) e;
  same_spec = λ h k a e. ap (λ o. (answer k h o).0.spec) e;
  same_deletion = λ h k a e. ap (λ o. (answer k h o).0.meta.deletion_timestamp) e;
  annotations = λ h k a e. ap (λ o. (answer k h o).0.meta.annotations) e;
  deployment = λ h k. refl;
  deployment_named = λ h k e. same_key-named k;
  service = λ h k. refl;
  service_named = λ h k e. same_key-named k;
  accepts = λ h b. refl;
  creates_deployment = λ h d. refl;
  creates_service = λ h s. refl;
  updates_deployment = λ h d. refl;
  updates_service = λ h s. refl;
}

codec-Lossless : Lossless codec apps
codec-Lossless k a e = (bytes "S", refl, ap some (sym (apps-spec k a e)))

abbrev ghost : NamespacedName
ghost = record { namespace = bytes "default"; name = bytes "ghost" }

abbrev always : {A : Type 0} → A → A → Bool
always _ _ = true

-- "web" is handled twice.
abbrev pending : List NamespacedName
pending = shop ∷ key ∷ ghost ∷ key ∷ []

work_converges_example :
    let after = work machinery codec always always keeper pending [] in
    (after.0 ≡ returned none ∷ returned none ∷ returned (some (api not_found)) ∷ returned none ∷ [])
    × ((k : NamespacedName)
        → let due = if has k pending then alive (apps k) else none in
          (sent_deployment (about k after.1) ≡ wanted_deployment machinery due)
          × (sent_service (about k after.1) ≡ wanted_service machinery due)
          × (creations (about k after.1) ≡ objects due))
work_converges_example =
    work_converges machinery codec always always keeper apps keeper-KeepsAll codec-Lossless pending

-- The calls before the reconcile of "web", which comes second.
abbrev before_web : Calls Ngloy
before_web = (reconcile machinery codec always always server shop []).1

work_last_example :
    let own = about key (work machinery codec always always server (shop ∷ key ∷ shop ∷ []) []).1 in
    (sent_deployment own ≡ some (new_deploy machinery (web key)).spec)
    × (sent_service own ≡ some (new_service machinery (web key)).spec)
unfolding reconcile koko.K8s.Nginx.update koko.K8s.Nginx.write_specs koko.K8s.Types.read
work_last_example =
    work_last machinery codec always always server server-IsNamed (λ h k n e. cc) key
      (shop ∷ key ∷ shop ∷ []) [] before_web refl refl refl
