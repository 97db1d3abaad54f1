-- ===== src/K8s/Tests/PromCopies.antt =====
-- Deep copies of a PromList with one item: its size is at 0, what its resources lead to at 1, its
-- two variables at 2 and 3, the item at 4 and the list at 5. It has no ports.
use koko.Base.{ℕ, ℤ, pos, ◌≡◌, refl, Option, none, some, ◌==◌, if◌then◌else◌, arith, []}
use koko.Go.Text.{Text, bytes}
use koko.K8s.Types.{TypeMeta, ServicePort, EnvVar}
use koko.K8s.Heap.{copy_pointer, if_not_nil, Heap, Kind}
use koko.K8s.Heap.Deep.{Deep, IsLive, Independent}
use koko.K8s.Heap.Optional.{optional, optional-IsDeep}
use koko.K8s.Heap.Pointers.{pointer_to, pointer_to-IsDeep}
use koko.K8s.Heap.Structs.{flat, flat-IsDeep}
use koko.K8s.Prom.DeepCopy.{
  list_deep_copy, PromSpec, PromStatus, Prom, PromList, Kinds, list_deep_copy_object,
}
use koko.K8s.Prom.DeepCopy.Laws.{foreign, list_object, prom_list_deep_copy_object-Independent}
use koko.K8s.Tests.Fixtures.{http}

data Cell : Type 0 where
  number : ℤ → Cell
  env : EnvVar → Cell
  port : ServicePort → Cell
  spec : PromSpec (Option ℕ) → Cell
  status : PromStatus Text → Cell
  prom : Prom Text (Option ℕ) Text → Cell
  list : PromList Text → Cell

abbrev no_types : TypeMeta
no_types = record { kind = []; api_version = [] }

abbrev no_spec : PromSpec (Option ℕ)
no_spec = record { size = none; image = []; resources = none; envs = none; ports = none }

abbrev no_status : PromStatus Text
no_status = record { deployment_status = [] }

abbrev as_number : Cell → ℤ
as_number (number n) = n
as_number _ = pos 0

abbrev as_port : Cell → ServicePort
as_port (port p) = p
as_port _ = http

abbrev utc : EnvVar
utc = record { name = bytes "TZ"; value = bytes "UTC" }

abbrev as_env : Cell → EnvVar
as_env (env e) = e
as_env _ = utc

abbrev as_spec : Cell → PromSpec (Option ℕ)
as_spec (spec s) = s
as_spec _ = no_spec

abbrev as_status : Cell → PromStatus Text
as_status (status s) = s
as_status _ = no_status

abbrev as_prom : Cell → Prom Text (Option ℕ) Text
as_prom (prom o) = o
as_prom _ = record { types = no_types; meta = []; spec = no_spec; status = no_status }

abbrev as_list : Cell → PromList Text
as_list (list l) = l
as_list _ = record { types = no_types; meta = []; items = none }

abbrev int32 : Kind ℤ Cell
int32 = record { into = number; out = as_number; out-into = λ v. refl }

abbrev kinds : Kinds Cell Text Text (Option ℕ) Text EnvVar ServicePort
kinds = record {
  int32 = int32;
  env = record { into = env; out = as_env; out-into = λ v. refl };
  port = record { into = port; out = as_port; out-into = λ v. refl };
  spec = record { into = spec; out = as_spec; out-into = λ v. refl };
  status = record { into = status; out = as_status; out-into = λ v. refl };
  prom = record { into = prom; out = as_prom; out-into = λ v. refl };
  list = record { into = list; out = as_list; out-into = λ v. refl };
}

abbrev text : Deep Cell Text Text
text = flat Cell Text

-- Resources that lead to a cell of their own.
abbrev resources : Deep Cell (Option ℕ) (Option ℤ)
resources = optional (pointer_to int32 (flat Cell ℤ))

abbrev item : Prom Text (Option ℕ) Text
item = record {
  types = no_types;
  meta = bytes "web";
  spec = record {
    size = some 0;
    image = bytes "prom/prometheus";
    resources = some 1;
    envs = some (record { ptr = 2; len = 2 });
    ports = none;
  };
  status = no_status;
}

abbrev items : PromList Text
items = record { types = no_types; meta = []; items = some (record { ptr = 4; len = 1 }) }

abbrev cells : ℕ → Cell
cells a =
    if a == 0
    then number (pos 3)
    else if a == 1
    then number (pos 500)
    else if a == 2
    then env utc
    else if a == 3
    then env (record utc { name = bytes "ZONE" })
    else if a == 4
    then prom item
    else list items

abbrev heap : Heap Cell
heap = record { next = 6; cell = cells }

live :
    IsLive
      (list_object kinds text text resources text (flat Cell EnvVar) (flat Cell ServicePort))
      (some 5)
      heap
live = (
  omega arith,
  omega arith,
  (
    tt,
    (
      omega arith,
      omega arith,
      (
        (
          tt,
          (
            (
              (omega arith, omega arith, tt),
              ((omega arith, omega arith, tt), ((omega arith, omega arith, (tt, (tt, tt))), tt)),
            ),
            tt,
          ),
        ),
        tt,
      ),
    ),
  ),
)

prom_list_deep_copy_object-Independent_example :
    Independent
      (list_object kinds text text resources text (flat Cell EnvVar) (flat Cell ServicePort))
      (some 5)
      heap
      (list_deep_copy_object kinds
        (foreign kinds text text resources text (flat Cell EnvVar) (flat Cell ServicePort))
        (some 5)
        heap)
prom_list_deep_copy_object-Independent_example =
    prom_list_deep_copy_object-Independent kinds text text resources text (flat Cell EnvVar)
      (flat Cell ServicePort) (flat-IsDeep Cell Text) (flat-IsDeep Cell Text)
      (optional-IsDeep _ (pointer_to-IsDeep int32 _ (flat-IsDeep Cell ℤ))) (flat-IsDeep Cell Text)
      (flat-IsDeep Cell EnvVar) (flat-IsDeep Cell ServicePort) (some 5) heap live

-- The copy of the list stands at 6, that of its item at 7, those of its size and its variables after it.
copied :
    (list_deep_copy_object kinds
      (foreign kinds text text resources text (flat Cell EnvVar) (flat Cell ServicePort))
      (some 5)
      heap).0
    ≡ some 6
unfolding list_deep_copy_object list_deep_copy if_not_nil copy_pointer
copied = refl
