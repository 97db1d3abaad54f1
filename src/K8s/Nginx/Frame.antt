-- ===== src/K8s/Nginx/Frame.antt =====
-- A reconcile writes to the objects of its own resource only.
use koko.Base.{
  ℕ, refl, ◌⊎◌, inl, inr, ◌≡◌, ◌≢◌, [], ◌∷◌, Option, none, some, Bool, true, ◌&&◌, text_eq,
  text_eq_refl, if◌then◌else◌, arith,
}
use koko.K8s.Types.{NamespacedName, ObjectMeta, ApiMachinery, Deployment}
use koko.K8s.Client.{ApiError, other, not_found, Call, Calls, Cluster}
use koko.K8s.Nginx.{
  Ngloy, NgloySpec, Codec, new_deploy, new_service, annotate, create, write_specs, update,
  reconcile_app, reconcile,
}

abbrev pub same_key : ObjectMeta → NamespacedName → Bool
same_key m k = text_eq m.name k.name && text_eq m.namespace k.namespace

abbrev pub key_eq : NamespacedName → NamespacedName → Bool
key_eq j k = text_eq j.name k.name && text_eq j.namespace k.namespace

-- A call reads or writes an object under the key.
abbrev pub concerns : NamespacedName → Call Ngloy → Bool
concerns k (Call.get_app j) = key_eq j k
concerns k (Call.get_deployment j) = key_eq j k
concerns k (Call.get_service j) = key_eq j k
concerns k (Call.create_deployment d) = same_key d.meta k
concerns k (Call.create_service s) = same_key s.meta k
concerns k (Call.update_app a) = same_key a.meta k
concerns k (Call.update_deployment d) = same_key d.meta k
concerns k (Call.update_service s) = same_key s.meta k

-- The calls for other objects.
abbrev pub others : NamespacedName → Calls Ngloy → Calls Ngloy
others k [] = []
others k (c ∷ h) = if concerns k c then others k h else c ∷ others k h

-- What `Get` gives without an error stands under the key that it was asked for.
pub record IsNamed (C : Cluster Ngloy) : Type 0 where
  pub app :
      (h : Calls Ngloy) (k : NamespacedName)
      → (C.app h k).1 ≡ none
      → same_key (C.app h k).0.meta k ≡ true
  pub deployment :
      (h : Calls Ngloy) (k : NamespacedName)
      → (C.deployment h k).1 ≡ none
      → same_key (C.deployment h k).0.meta k ≡ true
  pub service :
      (h : Calls Ngloy) (k : NamespacedName)
      → (C.service h k).1 ≡ none
      → same_key (C.service h k).0.meta k ≡ true

pub error_cases :
    (e : Option ApiError) → (e ≡ none) ⊎ ((e ≡ some not_found) ⊎ ((n : ℕ) × (e ≡ some (other n))))
error_cases none = inl refl
error_cases (some not_found) = inr (inl refl)
error_cases (some (other n)) = inr (inr (n, refl))

module _ (K : ApiMachinery) (J : Codec) (eq_app : Ngloy → Ngloy → Bool)
    (eq_spec : NgloySpec → NgloySpec → Bool) (C : Cluster Ngloy) (key : NamespacedName)
    (named : IsNamed C) where
  create-others :
      (app : Ngloy) (h : Calls Ngloy)
      → same_key app.meta key ≡ true
      → others key (create K J eq_app eq_spec C app h).1 ≡ others key h
  unfolding create annotate new_deploy new_service
  create-others app h own = ground arith

  write_specs-others :
      (app : Ngloy) (h : Calls Ngloy)
      → others key (write_specs K J eq_app eq_spec C key app h).1 ≡ others key h
  unfolding write_specs
  write_specs-others app h =
      let dep : Deployment = record (C.deployment h key).0 { spec = (new_deploy K app).spec } in
      let h' : Calls Ngloy = Call.update_deployment dep ∷ Call.get_deployment key ∷ h in
      ground (
        arith,
        text_eq_refl key.name,
        text_eq_refl key.namespace,
        named.deployment h key,
        named.service h' key,
      )

  update-others :
      (app : Ngloy) (h : Calls Ngloy)
      → others key (update K J eq_app eq_spec C key app h).1 ≡ others key h
  unfolding update
  update-others app h = ground (arith, write_specs-others app h)

  reconcile_app-others :
      (app : Ngloy) (err : Option ApiError) (h : Calls Ngloy)
      → same_key app.meta key ≡ true
      → others key (reconcile_app K J eq_app eq_spec C key app err h).1 ≡ others key h
  unfolding reconcile_app
  reconcile_app-others app err h own = ground (
    arith,
    text_eq_refl key.name,
    text_eq_refl key.namespace,
    create-others app (Call.get_deployment key ∷ h) own,
    update-others app (Call.get_deployment key ∷ h),
  )

  -- Where the API server answers `Get` with objects of the key that it was asked for, and the first
  -- `Get` ends well or with NotFound, a reconcile reads and writes objects of its own key alone: the
  -- calls for all others are those that were made before it.
  pub reconcile-others :
      (h : Calls Ngloy)
      → ((n : ℕ) → (C.app h key).1 ≢ some (other n))
      → others key (reconcile K J eq_app eq_spec C key h).1 ≡ others key h
  unfolding reconcile
  reconcile-others h sure = elim (error_cases (C.app h key).1) [
    | inl fine ↦ ground (
      arith,
      fine,
      text_eq_refl key.name,
      text_eq_refl key.namespace,
      reconcile_app-others (C.app h key).0 (C.app h key).1 (Call.get_app key ∷ h)
          (named.app h key fine),
    )
    | inr (inl gone) ↦ ground (arith, gone, text_eq_refl key.name, text_eq_refl key.namespace)
    | inr (inr (n, failed)) ↦ absurd (sure n failed)
  ]
