-- ===== src/K8s/Nginx/DeepCopy/Laws.antt =====
-- The copies are deep, as far as those of the foreign structs are.
use koko.Base.{some, none, ◌≡◌, ℕ, refl, Option, ℤ, List}
use koko.Go.Text.{Text}
use koko.K8s.Types.{TypeMeta}
use koko.K8s.Heap.{if_not_nil, Heap, Slice}
use koko.K8s.Heap.Deep.{copy-Independent, Independent, IsLive, Deep, IsDeep}
use koko.K8s.Heap.Optional.{optional, optional-IsDeep}
use koko.K8s.Heap.Pointers.{slice_of, slice_of-IsDeep, pointer_to, pointer_to-IsDeep}
use koko.K8s.Heap.Structs.{
  flat, flat-IsDeep, both, both-IsDeep, copy_both, struct, struct-IsDeep, copy_struct,
}
use koko.K8s.Nginx.DeepCopy.{
  list_deep_copy, deep_copy, NgloySpec, NgloyStatus, Ngloy, NgloyList, Foreign, Kinds,
  spec_deep_copy_into, status_deep_copy_into, deep_copy_into, list_deep_copy_into, deep_copy_object,
  list_deep_copy_object,
}

module _ (MV LV RV SV PV : Type 0) where
  -- What the structs read as: numbers, texts and lists in place of addresses.
  abbrev pub SpecView : Type 0
  SpecView = Text × (Option ℤ × (RV × Option (List PV)))

  abbrev pub StatusView : Type 0
  StatusView = Unit × SV

  abbrev pub NgloyView : Type 0
  NgloyView = TypeMeta × (MV × (SpecView × StatusView))

  abbrev pub ListView : Type 0
  ListView = TypeMeta × (LV × Option (List NgloyView))

module _ {C M L R S P MV LV RV SV PV : Type 0} (K : Kinds C M L R S P) (meta : Deep C M MV)
    (list_meta : Deep C L LV) (resources : Deep C R RV) (status : Deep C S SV)
    (port : Deep C P PV) where
  abbrev pub foreign : Foreign C M L R S P
  foreign = record {
    copy_meta = meta.copy;
    copy_list_meta = list_meta.copy;
    copy_resources = resources.copy;
    copy_status = status.copy;
    copy_port = port.copy;
  }

  abbrev spec_fields : Deep C (Option ℕ × (R × Option Slice)) (Option ℤ × (RV × Option (List PV)))
  spec_fields =
      both (optional (pointer_to K.int32 (flat C ℤ)))
        (both resources (optional (slice_of K.port port)))

  abbrev spec_struct : Deep C (NgloySpec R) (SpecView MV LV RV SV PV)
  spec_struct =
      struct spec_fields (λ s. (s.size, (s.resources, s.ports)))
        (λ s v. record s { size = v.0; resources = v.1.0; ports = v.1.1 }) (λ s. s.image)

  abbrev pub spec_deep : Deep C (NgloySpec R) (SpecView MV LV RV SV PV)
  spec_deep = record {
    copy = spec_deep_copy_into K foreign;
    view = spec_struct.view;
    Within = spec_struct.Within;
  }

  abbrev status_struct : Deep C (NgloyStatus S) (StatusView MV LV RV SV PV)
  status_struct =
      struct status (λ s. s.deployment_status) (λ s v. record s { deployment_status = v }) (λ s. tt)

  abbrev pub status_deep : Deep C (NgloyStatus S) (StatusView MV LV RV SV PV)
  status_deep = record {
    copy = status_deep_copy_into K foreign;
    view = status_struct.view;
    Within = status_struct.Within;
  }

  abbrev ngloy_fields :
      Deep C
        (M × (NgloySpec R × NgloyStatus S))
        (MV × (SpecView MV LV RV SV PV × StatusView MV LV RV SV PV))
  ngloy_fields = both meta (both spec_deep status_deep)

  abbrev ngloy_struct : Deep C (Ngloy M R S) (NgloyView MV LV RV SV PV)
  ngloy_struct =
      struct ngloy_fields (λ o. (o.meta, (o.spec, o.status)))
        (λ o v. record o { meta = v.0; spec = v.1.0; status = v.1.1 }) (λ o. o.types)

  abbrev pub ngloy_deep : Deep C (Ngloy M R S) (NgloyView MV LV RV SV PV)
  ngloy_deep = record {
    copy = deep_copy_into K foreign;
    view = ngloy_struct.view;
    Within = ngloy_struct.Within;
  }

  abbrev list_fields : Deep C (L × Option Slice) (LV × Option (List (NgloyView MV LV RV SV PV)))
  list_fields = both list_meta (optional (slice_of K.ngloy ngloy_deep))

  abbrev list_struct : Deep C (NgloyList L) (ListView MV LV RV SV PV)
  list_struct =
      struct list_fields (λ o. (o.meta, o.items)) (λ o v. record o { meta = v.0; items = v.1 })
        (λ o. o.types)

  abbrev pub list_deep : Deep C (NgloyList L) (ListView MV LV RV SV PV)
  list_deep = record {
    copy = list_deep_copy_into K foreign;
    view = list_struct.view;
    Within = list_struct.Within;
  }

  -- A runtime.Object: a pointer that may be nil.
  abbrev pub ngloy_object : Deep C (Option ℕ) (Option (NgloyView MV LV RV SV PV))
  ngloy_object = record {
    copy = deep_copy_object K foreign;
    view = (optional (pointer_to K.ngloy ngloy_deep)).view;
    Within = (optional (pointer_to K.ngloy ngloy_deep)).Within;
  }

  abbrev pub list_object : Deep C (Option ℕ) (Option (ListView MV LV RV SV PV))
  list_object = record {
    copy = list_deep_copy_object K foreign;
    view = (optional (pointer_to K.list list_deep)).view;
    Within = (optional (pointer_to K.list list_deep)).Within;
  }

  module _ (meta_d : IsDeep meta) (list_meta_d : IsDeep list_meta) (resources_d : IsDeep resources)
      (status_d : IsDeep status) (port_d : IsDeep port) where
    spec-IsDeep : IsDeep spec_deep
    unfolding spec_deep_copy_into copy_both copy_struct
    spec-IsDeep =
        struct-IsDeep spec_fields _ _ _
          (both-IsDeep _ _ (optional-IsDeep _ (pointer_to-IsDeep K.int32 _ (flat-IsDeep C ℤ)))
            (both-IsDeep _ _ resources_d (optional-IsDeep _ (slice_of-IsDeep K.port _ port_d))))
          (λ t v. refl) (λ t v. refl)

    status-IsDeep : IsDeep status_deep
    unfolding status_deep_copy_into copy_struct
    status-IsDeep = struct-IsDeep status _ _ _ status_d (λ t v. refl) (λ t v. refl)

    ngloy-IsDeep : IsDeep ngloy_deep
    unfolding deep_copy_into copy_both copy_struct
    ngloy-IsDeep =
        struct-IsDeep ngloy_fields _ _ _
          (both-IsDeep _ _ meta_d (both-IsDeep _ _ spec-IsDeep status-IsDeep)) (λ t v. refl)
          (λ t v. refl)

    list-IsDeep : IsDeep list_deep
    unfolding list_deep_copy_into copy_both copy_struct
    list-IsDeep =
        struct-IsDeep list_fields _ _ _
          (both-IsDeep _ _ list_meta_d (optional-IsDeep _ (slice_of-IsDeep K.ngloy _ ngloy-IsDeep)))
          (λ t v. refl) (λ t v. refl)

    ngloy_object_lem :
        (p : Option ℕ) (h : Heap C)
        → deep_copy_object K foreign p h ≡ (optional (pointer_to K.ngloy ngloy_deep)).copy p h
    unfolding deep_copy_object deep_copy if_not_nil
    ngloy_object_lem none h = refl
    ngloy_object_lem (some a) h = refl

    list_object_lem :
        (p : Option ℕ) (h : Heap C)
        → list_deep_copy_object K foreign p h ≡ (optional (pointer_to K.list list_deep)).copy p h
    unfolding list_deep_copy_object list_deep_copy if_not_nil
    list_object_lem none h = refl
    list_object_lem (some a) h = refl

    -- Likewise of a pointer to one object.
    deep_copy_object-Independent :
        (p : Option ℕ) (h : Heap C)
        → IsLive ngloy_object p h
        → Independent ngloy_object p h (deep_copy_object K foreign p h)
    deep_copy_object-Independent p h live =
        rw (ngloy_object_lem p h) (
          copy-Independent _ (optional-IsDeep _ (pointer_to-IsDeep K.ngloy _ ngloy-IsDeep)) p h
            live)

    -- If the copies of the five foreign structs are deep, and a pointer to an NgloyList, nil or not,
    -- leads to cells in use only, then `DeepCopyObject` gives a copy that reads as the original, item
    -- by item and through every pointer and slice, and writes to no cell that was in use. No later
    -- write to those cells changes what the copy reads as, and no later write to the cells taken for
    -- the copy changes what the original reads as.
    pub list_deep_copy_object-Independent :
        (p : Option ℕ) (h : Heap C)
        → IsLive list_object p h
        → Independent list_object p h (list_deep_copy_object K foreign p h)
    list_deep_copy_object-Independent p h live =
        rw (list_object_lem p h)
          (copy-Independent _ (optional-IsDeep _ (pointer_to-IsDeep K.list _ list-IsDeep)) p h live)
