-- ===== src/K8s/Tests/NginxCopies.antt =====
-- Deep copies of an NgloyList with one item: its size is at 0, what its resources lead to at 1, its
-- port at 2, the item at 3 and the list at 4.
use koko.Base.{ℕ, ℤ, pos, ◌≡◌, refl, Option, none, some, ◌==◌, if◌then◌else◌, arith, []}
use koko.Go.Text.{Text, bytes}
use koko.K8s.Types.{TypeMeta, ServicePort}
use koko.K8s.Heap.{copy_pointer, if_not_nil, Heap, Kind}
use koko.K8s.Heap.Deep.{Deep, IsLive, Independent}
use koko.K8s.Heap.Optional.{optional, optional-IsDeep}
use koko.K8s.Heap.Pointers.{pointer_to, pointer_to-IsDeep}
use koko.K8s.Heap.Structs.{flat, flat-IsDeep}
use koko.K8s.Nginx.DeepCopy.{
  list_deep_copy, NgloySpec, NgloyStatus, Ngloy, NgloyList, Kinds, list_deep_copy_object,
}
use koko.K8s.Nginx.DeepCopy.Laws.{foreign, list_object, list_deep_copy_object-Independent}
use koko.K8s.Tests.Fixtures.{http}

data Cell : Type 0 where
  number : ℤ → Cell
  port : ServicePort → Cell
  spec : NgloySpec (Option ℕ) → Cell
  status : NgloyStatus Text → Cell
  ngloy : Ngloy Text (Option ℕ) Text → Cell
  list : NgloyList Text → Cell

abbrev no_types : TypeMeta
no_types = record { kind = []; api_version = [] }

abbrev no_spec : NgloySpec (Option ℕ)
no_spec = record { size = none; image = []; resources = none; ports = none }

abbrev no_status : NgloyStatus Text
no_status = record { deployment_status = [] }

abbrev as_number : Cell → ℤ
as_number (number n) = n
as_number _ = pos 0

abbrev as_port : Cell → ServicePort
as_port (port p) = p
as_port _ = http

abbrev as_spec : Cell → NgloySpec (Option ℕ)
as_spec (spec s) = s
as_spec _ = no_spec

abbrev as_status : Cell → NgloyStatus Text
as_status (status s) = s
as_status _ = no_status

abbrev as_ngloy : Cell → Ngloy Text (Option ℕ) Text
as_ngloy (ngloy o) = o
as_ngloy _ = record { types = no_types; meta = []; spec = no_spec; status = no_status }

abbrev as_list : Cell → NgloyList Text
as_list (list l) = l
as_list _ = record { types = no_types; meta = []; items = none }

abbrev int32 : Kind ℤ Cell
int32 = record { into = number; out = as_number; out-into = λ v. refl }

abbrev kinds : Kinds Cell Text Text (Option ℕ) Text ServicePort
kinds = record {
  int32 = int32;
  port = record { into = port; out = as_port; out-into = λ v. refl };
  spec = record { into = spec; out = as_spec; out-into = λ v. refl };
  status = record { into = status; out = as_status; out-into = λ v. refl };
  ngloy = record { into = ngloy; out = as_ngloy; out-into = λ v. refl };
  list = record { into = list; out = as_list; out-into = λ v. refl };
}

abbrev text : Deep Cell Text Text
text = flat Cell Text

-- Resources that lead to a cell of their own.
abbrev resources : Deep Cell (Option ℕ) (Option ℤ)
resources = optional (pointer_to int32 (flat Cell ℤ))

abbrev item : Ngloy Text (Option ℕ) Text
item = record {
  types = no_types;
  meta = bytes "web";
  spec = record {
    size = some 0;
    image = bytes "nginx:1.7.9";
    resources = some 1;
    ports = some (record { ptr = 2; len = 1 });
  };
  status = no_status;
}

abbrev items : NgloyList Text
items = record { types = no_types; meta = []; items = some (record { ptr = 3; len = 1 }) }

abbrev cells : ℕ → Cell
cells a =
    if a == 0
    then number (pos 3)
    else if a == 1
    then number (pos 500)
    else if a == 2
    then port http
    else if a == 3
    then ngloy item
    else list items

abbrev heap : Heap Cell
heap = record { next = 5; cell = cells }

live : IsLive (list_object kinds text text resources text (flat Cell ServicePort)) (some 4) heap
live = (
  omega arith,
  omega arith,
  (
    tt,
    (
      omega arith,
      omega arith,
      (
        (
          tt,
          (
            (
              (omega arith, omega arith, tt),
              ((omega arith, omega arith, tt), (omega arith, omega arith, (tt, tt))),
            ),
            tt,
          ),
        ),
        tt,
      ),
    ),
  ),
)

list_deep_copy_object-Independent_example :
    Independent (list_object kinds text text resources text (flat Cell ServicePort)) (some 4) heap (
      list_deep_copy_object kinds
        (foreign kinds text text resources text (flat Cell ServicePort))
        (some 4)
        heap)
list_deep_copy_object-Independent_example =
    list_deep_copy_object-Independent kinds text text resources text (flat Cell ServicePort)
      (flat-IsDeep Cell Text) (flat-IsDeep Cell Text)
      (optional-IsDeep _ (pointer_to-IsDeep int32 _ (flat-IsDeep Cell ℤ))) (flat-IsDeep Cell Text)
      (flat-IsDeep Cell ServicePort) (some 4) heap live

-- The copy of the list stands at 5, that of its item at 6, those of its size and its port after it.
copied :
    (list_deep_copy_object kinds
      (foreign kinds text text resources text (flat Cell ServicePort))
      (some 4)
      heap).0
    ≡ some 5
unfolding list_deep_copy_object list_deep_copy if_not_nil copy_pointer
copied = refl
