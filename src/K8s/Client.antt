-- ===== src/K8s/Client.antt =====
-- The API server as a reconciler sees it through controller-runtime's client. It is not the
-- program's: each answer is a function of the calls before it, those of other clients standing in
-- the answers. `A` is the operator's own resource.
use koko.Base.{List, ◌∷◌, Option, none, some, Bool, true, false, ℕ}
use koko.K8s.Types.{NamespacedName, Deployment, Service}

pub data ApiError : Type 0 where
  not_found : ApiError
  other : ℕ → ApiError

-- `errors.IsNotFound`, which is false of nil.
abbrev pub is_not_found : Option ApiError → Bool
is_not_found (some ApiError.not_found) = true
is_not_found _ = false

abbrev pub is_some : Option ApiError → Bool
is_some none = false
is_some (some _) = true

-- What a reconcile returns for its error: none is nil.
pub data Failure : Type 0 where
  api : ApiError → Failure
  json : Failure

pub data Call (A : Type 0) : Type 0 where
  get_app : NamespacedName → Call A
  get_deployment : NamespacedName → Call A
  get_service : NamespacedName → Call A
  create_deployment : Deployment → Call A
  create_service : Service → Call A
  update_app : A → Call A
  update_deployment : Deployment → Call A
  update_service : Service → Call A

-- The calls made so far, the newest first.
abbrev pub Calls : Type 0 → Type 0
Calls A = List (Call A)

-- `Get` gives the object as it leaves it, and an error; `Create` and `Update` an error.
pub record Cluster (A : Type 0) : Type 0 where
  pub app : Calls A → NamespacedName → A × Option ApiError
  pub deployment : Calls A → NamespacedName → Deployment × Option ApiError
  pub service : Calls A → NamespacedName → Service × Option ApiError
  pub creates_deployment : Calls A → Deployment → Option ApiError
  pub creates_service : Calls A → Service → Option ApiError
  pub updates_app : Calls A → A → Option ApiError
  pub updates_deployment : Calls A → Deployment → Option ApiError
  pub updates_service : Calls A → Service → Option ApiError

-- A reconcile goes on with a value, or has returned.
pub data Flow (B : Type 0) : Type 0 where
  go : B → Flow B
  returned : Option Failure → Flow B

abbrev pub R : Type 0 → Type 0 → Type 0
R A B = Calls A → Flow B × Calls A

abbrev pub pure : {A B : Type 0} → B → R A B
pure b h = (go b, h)

infixl 5 ◌>>=◌ ◌>>◌
abbrev pub ◌>>=◌ : {A B C : Type 0} → R A B → (B → R A C) → R A C
◌>>=◌ m f h = let (r, h') = m h in elim r [ go b ↦ f b h' | returned e ↦ (returned e, h') ]

abbrev pub ◌>>◌ : {A B C : Type 0} → R A B → R A C → R A C
m >> k = m >>= λ _. k

-- `return ctrl.Result{}, err`
abbrev pub return_error : {A B : Type 0} → Option Failure → R A B
return_error e h = (returned e, h)

abbrev pub call : {A B : Type 0} → Call A → (Calls A → B) → R A B
call c answer h = (go (answer h), c ∷ h)

-- `if err := …; err != nil { return ctrl.Result{}, err }`
abbrev pub check : {A : Type 0} → Option ApiError → R A (Unit {0})
check none h = (go tt, h)
check (some e) h = (returned (some (api e)), h)

abbrev pub as_failure : Option ApiError → Option Failure
as_failure none = none
as_failure (some e) = some (api e)
