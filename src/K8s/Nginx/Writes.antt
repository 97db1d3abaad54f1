-- ===== src/K8s/Nginx/Writes.antt =====
-- What a `Reconcile` of the nginx operator has written when it returns.
use koko.Base.{
  text_eq_iff, Option-cases, inl, inr, ◌≢◌, ◌⊎◌, true, false, suc, ℕ, ◌+◌, ◌≤◌, ◌≡◌, [], ◌∷◌,
  Option, some, none, Bool, arith,
}
use koko.K8s.Types.{read, insert, Map, NamespacedName, DeploymentSpec, ServiceSpec, ApiMachinery}
use koko.K8s.Types.Maps.{read-insert}
use koko.K8s.Client.{json, other, is_not_found, Call, Calls, Cluster, returned}
use koko.K8s.Nginx.{
  bytes, read_spec, Text, read, annotate, Ngloy, NgloySpec, Codec, new_deploy, new_service, create,
  write_specs, update, reconcile,
}

-- The spec of the deployment that was last sent to the API server, and of the service.
abbrev pub sent_deployment : Calls Ngloy → Option DeploymentSpec
sent_deployment [] = none
sent_deployment (Call.create_deployment d ∷ h) = some d.spec
sent_deployment (Call.update_deployment d ∷ h) = some d.spec
sent_deployment (_ ∷ h) = sent_deployment h

abbrev pub sent_service : Calls Ngloy → Option ServiceSpec
sent_service [] = none
sent_service (Call.create_service s ∷ h) = some s.spec
sent_service (Call.update_service s ∷ h) = some s.spec
sent_service (_ ∷ h) = sent_service h

abbrev pub writes : Calls Ngloy → ℕ
writes [] = 0
writes (Call.get_app _ ∷ h) = writes h
writes (Call.get_deployment _ ∷ h) = writes h
writes (Call.get_service _ ∷ h) = writes h
writes (_ ∷ h) = suc (writes h)

-- `m[k]`, where `m` may be nil
abbrev pub read_or_empty : Text → Option Map → Text
read_or_empty k none = []
read_or_empty k (some m) = read k m

-- What `annotate` does to a map that is there.
spec_and_others :
    (m : Map) (t : Text)
    → (read (bytes "spec") (insert (bytes "spec") t m) ≡ t)
      × ((k : Text) → k ≢ bytes "spec" → read k (insert (bytes "spec") t m) ≡ read k m)
spec_and_others m t = (
  read-insert (bytes "spec") (bytes "spec") t m,
  λ k ne. ground (arith, read-insert (bytes "spec") k t m, text_eq_iff (bytes "spec") k),
)

module _ (K : ApiMachinery) (J : Codec) (eq_app : Ngloy → Ngloy → Bool)
    (eq_spec : NgloySpec → NgloySpec → Bool) (C : Cluster Ngloy) (key : NamespacedName)
    (h : Calls Ngloy) where
  -- The resource that `Reconcile` reads.
  abbrev pub subject : Ngloy
  subject = (C.app h key).0

  -- When `Reconcile` returns no error for a resource that is not being deleted, the deployment and
  -- the service last sent to the API server have the specs that the resource asks for.
  pub reconcile_sent :
      subject.meta.deletion_timestamp ≡ none
      → (reconcile K J eq_app eq_spec C key h).0 ≡ returned none
      → (sent_deployment (reconcile K J eq_app eq_spec C key h).1
          ≡ some (new_deploy K subject).spec)
        × (sent_service (reconcile K J eq_app eq_spec C key h).1
            ≡ some (new_service K subject).spec)
  unfolding reconcile create update write_specs
  reconcile_sent live e = ground arith

  -- A resource that is not found, or is being deleted, is read and nothing more.
  pub reconcile_gone :
      (is_not_found (C.app h key).1 ≡ true) ⊎ (subject.meta.deletion_timestamp ≢ none)
      → (reconcile K J eq_app eq_spec C key h).1 ≡ Call.get_app key ∷ h
  unfolding reconcile
  reconcile_gone gone = ground arith

  -- A reconcile that returns no error for a resource that is not being deleted has sent at least
  -- two writes, also where the stored spec is the resource's own: the comparison never finds the
  -- two equal, since it compares pointers of different types.
  pub reconcile_always_writes :
      subject.meta.deletion_timestamp ≡ none
      → (reconcile K J eq_app eq_spec C key h).0 ≡ returned none
      → writes h + 2 ≤ writes (reconcile K J eq_app eq_spec C key h).1
  unfolding reconcile create update write_specs
  reconcile_always_writes live e = ground arith

  -- Where the first `Get` fails with an error other than NotFound, the object that it left is not
  -- being deleted and the deployment is not found, the error is passed over: that object is
  -- deployed.
  pub reconcile_after_failed_get :
      (n : ℕ)
      → (C.app h key).1 ≡ some (other n)
      → subject.meta.deletion_timestamp ≡ none
      → is_not_found (C.deployment (Call.get_app key ∷ h) key).1 ≡ true
      → sent_deployment (reconcile K J eq_app eq_spec C key h).1 ≡ some (new_deploy K subject).spec
  unfolding reconcile create
  reconcile_after_failed_get n failed live missing = ground arith

  -- Where the deployment exists and the resource has no annotations, the stored spec is the empty
  -- text, which is no JSON: the reconcile returns that error and writes nothing.
  pub reconcile_without_annotations :
      J.unmarshal [] ≡ none
      → is_not_found (C.app h key).1 ≡ false
      → subject.meta.deletion_timestamp ≡ none
      → subject.meta.annotations ≡ none
      → is_not_found (C.deployment (Call.get_app key ∷ h) key).1 ≡ false
      → reconcile K J eq_app eq_spec C key h
        ≡ (returned (some json), Call.get_deployment key ∷ Call.get_app key ∷ h)
  unfolding reconcile update
  reconcile_without_annotations empty found live bare exists = ground arith

  -- For a resource that is found, not being deleted and without a deployment, success means that
  -- the deployment, the service and the annotated resource were sent in this order, and nothing
  -- else.
  pub reconcile_creates :
      is_not_found (C.app h key).1 ≡ false
      → subject.meta.deletion_timestamp ≡ none
      → is_not_found (C.deployment (Call.get_app key ∷ h) key).1 ≡ true
      → (reconcile K J eq_app eq_spec C key h).0 ≡ returned none
      → (reconcile K J eq_app eq_spec C key h).1
        ≡ Call.update_app (annotate J subject)
          ∷ Call.create_service (new_service K subject)
          ∷ Call.create_deployment (new_deploy K subject)
          ∷ Call.get_deployment key
          ∷ Call.get_app key
          ∷ h
  unfolding reconcile create
  reconcile_creates found live missing e = ground arith

-- The spec that the operator stores is the spec that it later reads, if the codec is lossless on
-- it; every other annotation stays as it was.
pub annotate_round_trip :
    (J : Codec) (app : Ngloy) (t : Text)
    → J.marshal app.spec ≡ some t
    → J.unmarshal t ≡ some app.spec
    → let m = (annotate J app).meta.annotations in
      (J.unmarshal (read_spec m) ≡ some app.spec)
      × ((k : Text) → k ≢ bytes "spec" → read_or_empty k m ≡ read_or_empty k app.meta.annotations)
unfolding annotate read insert
annotate_round_trip codec app t out back = elim (Option-cases app.meta.annotations) [
  | inl bare ↦
      let (stored, others) = spec_and_others [] t in rw (bare, out) (rw stored back, others)
  | inr (m, old) ↦
      let (stored, others) = spec_and_others m t in rw (old, out) (rw stored back, others)
]
