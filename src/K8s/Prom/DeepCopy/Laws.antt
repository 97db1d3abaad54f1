-- ===== src/K8s/Prom/DeepCopy/Laws.antt =====
-- The copies are deep, as far as those of the foreign structs are.
use koko.Base.{some, none, ◌≡◌, ℕ, refl, Option, ℤ, List}
use koko.Go.Text.{Text}
use koko.K8s.Types.{TypeMeta}
use koko.K8s.Heap.{if_not_nil, Heap, Slice}
use koko.K8s.Heap.Deep.{copy-Independent, Independent, IsLive, Deep, IsDeep}
use koko.K8s.Heap.Optional.{optional, optional-IsDeep}
use koko.K8s.Heap.Pointers.{slice_of, slice_of-IsDeep, pointer_to, pointer_to-IsDeep}
use koko.K8s.Heap.Structs.{
  flat, flat-IsDeep, both, both-IsDeep, copy_both, struct, struct-IsDeep, copy_struct,
}
use koko.K8s.Prom.DeepCopy.{
  list_deep_copy, deep_copy, PromSpec, PromStatus, Prom, PromList, Foreign, Kinds,
  spec_deep_copy_into, status_deep_copy_into, deep_copy_into, list_deep_copy_into, deep_copy_object,
  list_deep_copy_object,
}

module _ (MV LV RV SV EV PV : Type 0) where
  -- What the structs read as: numbers, texts and lists in place of addresses.
  abbrev pub SpecView : Type 0
  SpecView = Text × (Option ℤ × (RV × (Option (List EV) × Option (List PV))))

  abbrev pub StatusView : Type 0
  StatusView = Unit × SV

  abbrev pub PromView : Type 0
  PromView = TypeMeta × (MV × (SpecView × StatusView))

  abbrev pub ListView : Type 0
  ListView = TypeMeta × (LV × Option (List PromView))

module _ {C M L R S E P MV LV RV SV EV PV : Type 0} (K : Kinds C M L R S E P) (meta : Deep C M MV)
    (list_meta : Deep C L LV) (resources : Deep C R RV) (status : Deep C S SV) (env : Deep C E EV)
    (port : Deep C P PV) where
  abbrev pub foreign : Foreign C M L R S E P
  foreign = record {
    copy_meta = meta.copy;
    copy_list_meta = list_meta.copy;
    copy_resources = resources.copy;
    copy_status = status.copy;
    copy_env = env.copy;
    copy_port = port.copy;
  }

  abbrev spec_fields :
      Deep C
        (Option ℕ × (R × (Option Slice × Option Slice)))
        (Option ℤ × (RV × (Option (List EV) × Option (List PV))))
  spec_fields =
      both (optional (pointer_to K.int32 (flat C ℤ)))
        (both resources (both (optional (slice_of K.env env)) (optional (slice_of K.port port))))

  abbrev spec_struct : Deep C (PromSpec R) (SpecView MV LV RV SV EV PV)
  spec_struct =
      struct spec_fields (λ s. (s.size, (s.resources, (s.envs, s.ports))))
        (λ s v. record s { size = v.0; resources = v.1.0; envs = v.1.1.0; ports = v.1.1.1 })
        (λ s. s.image)

  abbrev pub spec_deep : Deep C (PromSpec R) (SpecView MV LV RV SV EV PV)
  spec_deep = record {
    copy = spec_deep_copy_into K foreign;
    view = spec_struct.view;
    Within = spec_struct.Within;
  }

  abbrev status_struct : Deep C (PromStatus S) (StatusView MV LV RV SV EV PV)
  status_struct =
      struct status (λ s. s.deployment_status) (λ s v. record s { deployment_status = v }) (λ s. tt)

  abbrev pub status_deep : Deep C (PromStatus S) (StatusView MV LV RV SV EV PV)
  status_deep = record {
    copy = status_deep_copy_into K foreign;
    view = status_struct.view;
    Within = status_struct.Within;
  }

  abbrev prom_fields :
      Deep C
        (M × (PromSpec R × PromStatus S))
        (MV × (SpecView MV LV RV SV EV PV × StatusView MV LV RV SV EV PV))
  prom_fields = both meta (both spec_deep status_deep)

  abbrev prom_struct : Deep C (Prom M R S) (PromView MV LV RV SV EV PV)
  prom_struct =
      struct prom_fields (λ o. (o.meta, (o.spec, o.status)))
        (λ o v. record o { meta = v.0; spec = v.1.0; status = v.1.1 }) (λ o. o.types)

  abbrev pub prom_deep : Deep C (Prom M R S) (PromView MV LV RV SV EV PV)
  prom_deep = record {
    copy = deep_copy_into K foreign;
    view = prom_struct.view;
    Within = prom_struct.Within;
  }

  abbrev list_fields : Deep C (L × Option Slice) (LV × Option (List (PromView MV LV RV SV EV PV)))
  list_fields = both list_meta (optional (slice_of K.prom prom_deep))

  abbrev list_struct : Deep C (PromList L) (ListView MV LV RV SV EV PV)
  list_struct =
      struct list_fields (λ o. (o.meta, o.items)) (λ o v. record o { meta = v.0; items = v.1 })
        (λ o. o.types)

  abbrev pub list_deep : Deep C (PromList L) (ListView MV LV RV SV EV PV)
  list_deep = record {
    copy = list_deep_copy_into K foreign;
    view = list_struct.view;
    Within = list_struct.Within;
  }

  -- A runtime.Object: a pointer that may be nil.
  abbrev pub prom_object : Deep C (Option ℕ) (Option (PromView MV LV RV SV EV PV))
  prom_object = record {
    copy = deep_copy_object K foreign;
    view = (optional (pointer_to K.prom prom_deep)).view;
    Within = (optional (pointer_to K.prom prom_deep)).Within;
  }

  abbrev pub list_object : Deep C (Option ℕ) (Option (ListView MV LV RV SV EV PV))
  list_object = record {
    copy = list_deep_copy_object K foreign;
    view = (optional (pointer_to K.list list_deep)).view;
    Within = (optional (pointer_to K.list list_deep)).Within;
  }

  module _ (meta_d : IsDeep meta) (list_meta_d : IsDeep list_meta) (resources_d : IsDeep resources)
      (status_d : IsDeep status) (env_d : IsDeep env) (port_d : IsDeep port) where
    spec-IsDeep : IsDeep spec_deep
    unfolding spec_deep_copy_into copy_both copy_struct
    spec-IsDeep =
        struct-IsDeep spec_fields _ _ _
          (both-IsDeep _ _ (optional-IsDeep _ (pointer_to-IsDeep K.int32 _ (flat-IsDeep C ℤ))) (
            both-IsDeep _ _ resources_d (
              both-IsDeep _ _ (optional-IsDeep _ (slice_of-IsDeep K.env _ env_d))
                (optional-IsDeep _ (slice_of-IsDeep K.port _ port_d)))))
          (λ t v. refl) (λ t v. refl)

    status-IsDeep : IsDeep status_deep
    unfolding status_deep_copy_into copy_struct
    status-IsDeep = struct-IsDeep status _ _ _ status_d (λ t v. refl) (λ t v. refl)

    prom-IsDeep : IsDeep prom_deep
    unfolding deep_copy_into copy_both copy_struct
    prom-IsDeep =
        struct-IsDeep prom_fields _ _ _
          (both-IsDeep _ _ meta_d (both-IsDeep _ _ spec-IsDeep status-IsDeep)) (λ t v. refl)
          (λ t v. refl)

    list-IsDeep : IsDeep list_deep
    unfolding list_deep_copy_into copy_both copy_struct
    list-IsDeep =
        struct-IsDeep list_fields _ _ _
          (both-IsDeep _ _ list_meta_d (optional-IsDeep _ (slice_of-IsDeep K.prom _ prom-IsDeep)))
          (λ t v. refl) (λ t v. refl)

    prom_object_lem :
        (p : Option ℕ) (h : Heap C)
        → deep_copy_object K foreign p h ≡ (optional (pointer_to K.prom prom_deep)).copy p h
    unfolding deep_copy_object deep_copy if_not_nil
    prom_object_lem none h = refl
    prom_object_lem (some a) h = refl

    list_object_lem :
        (p : Option ℕ) (h : Heap C)
        → list_deep_copy_object K foreign p h ≡ (optional (pointer_to K.list list_deep)).copy p h
    unfolding list_deep_copy_object list_deep_copy if_not_nil
    list_object_lem none h = refl
    list_object_lem (some a) h = refl

    -- Likewise of a pointer to one object.
    prom_deep_copy_object-Independent :
        (p : Option ℕ) (h : Heap C)
        → IsLive prom_object p h
        → Independent prom_object p h (deep_copy_object K foreign p h)
    prom_deep_copy_object-Independent p h live =
        rw (prom_object_lem p h)
          (copy-Independent _ (optional-IsDeep _ (pointer_to-IsDeep K.prom _ prom-IsDeep)) p h live)

    -- If the copies of the six foreign structs are deep, and a pointer to a PromList, nil or not,
    -- leads to cells in use only, then `DeepCopyObject` gives a copy that reads as the original, item
    -- by item and through every pointer and slice, and writes to no cell that was in use. No later
    -- write to those cells changes what the copy reads as, and no later write to the cells taken for
    -- the copy changes what the original reads as.
    pub prom_list_deep_copy_object-Independent :
        (p : Option ℕ) (h : Heap C)
        → IsLive list_object p h
        → Independent list_object p h (list_deep_copy_object K foreign p h)
    prom_list_deep_copy_object-Independent p h live =
        rw (list_object_lem p h)
          (copy-Independent _ (optional-IsDeep _ (pointer_to-IsDeep K.list _ list-IsDeep)) p h live)
