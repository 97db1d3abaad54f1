-- ===== src/K8s/Nginx/Queue/Keys.antt =====
-- Keys, and the calls about one of them.
use koko.Base.{text_eq, ◌≡◌, refl, [], ◌∷◌, true, false, ◌&&◌, text_eq_iff, text_eq_refl, arith}
use koko.K8s.Types.{NamespacedName}
use koko.K8s.Client.{Call, Calls}
use koko.K8s.Nginx.{Text, Ngloy}
use koko.K8s.Nginx.Frame.{key_eq, concerns, others}
use koko.K8s.Nginx.Queue.{about}

pub key_eq-same : (j k : NamespacedName) → key_eq j k ≡ true → j ≡ k
key_eq-same j k e = ground (arith, text_eq_iff j.name k.name, text_eq_iff j.namespace k.namespace)

pub key_eq_refl : (k : NamespacedName) → key_eq k k ≡ true
key_eq_refl k = ground (arith, text_eq_refl k.name, text_eq_refl k.namespace)

text_eq-one : (s t u : Text) → text_eq s t ≡ true → text_eq s u ≡ true → text_eq t u ≡ true
text_eq-one s t u e e' = ground (arith, text_eq_iff s t, text_eq_iff s u, text_eq_iff t u)

-- A name and a namespace are those of one key at most, and so a call concerns one at most.
one_key :
    (n s : Text) (j k : NamespacedName)
    → text_eq n j.name && text_eq s j.namespace ≡ true
    → text_eq n k.name && text_eq s k.namespace ≡ true
    → key_eq j k ≡ true
one_key n s j k e e' =
    ground (arith, text_eq-one n j.name k.name, text_eq-one s j.namespace k.namespace)

one_concerned :
    (j k : NamespacedName) (c : Call Ngloy)
    → concerns j c ≡ true
    → concerns k c ≡ true
    → key_eq j k ≡ true
one_concerned j k (Call.get_app i) = one_key i.name i.namespace j k
one_concerned j k (Call.get_deployment i) = one_key i.name i.namespace j k
one_concerned j k (Call.get_service i) = one_key i.name i.namespace j k
one_concerned j k (Call.create_deployment d) = one_key d.meta.name d.meta.namespace j k
one_concerned j k (Call.create_service d) = one_key d.meta.name d.meta.namespace j k
one_concerned j k (Call.update_app d) = one_key d.meta.name d.meta.namespace j k
one_concerned j k (Call.update_deployment d) = one_key d.meta.name d.meta.namespace j k
one_concerned j k (Call.update_service d) = one_key d.meta.name d.meta.namespace j k

pub about-others :
    (j k : NamespacedName) (h : Calls Ngloy) → key_eq j k ≡ false → about k (others j h) ≡ about k h
about-others j k [] e = refl
about-others j k (c ∷ h) e = ground (arith, about-others j k h e, one_concerned j k c)
