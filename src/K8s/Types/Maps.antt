-- ===== src/K8s/Types/Maps.antt =====
-- A map of strings after a write.
use koko.Base.{◌≡◌, refl, [], ◌∷◌, arith, if◌then◌else◌, text_eq, text_eq_iff}
use koko.Go.Text.{Text}
use koko.K8s.Types.{Map, insert, read}

pub read-insert :
    (k j v : Text) (m : Map) → read j (insert k v m) ≡ (if text_eq k j then v else read j m)
unfolding read insert
read-insert k j v [] = refl
read-insert k j v ((i, x) ∷ m) =
    ground (arith, text_eq_iff k j, text_eq_iff i k, text_eq_iff i j, read-insert k j v m)
