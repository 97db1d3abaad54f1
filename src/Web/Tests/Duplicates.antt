-- ===== src/Web/Tests/Duplicates.antt =====
-- One name added twice, by requests that interleave and not by requests one after the other.
use koko.Base.{
  ◌≡◌, refl, [], ◌∷◌, Bool, true, false, ◌||◌, text_eq, text_eq_iff, if◌then◌else◌, arith,
}
use koko.Go.Text.{Text, bytes}
use koko.Web.World.{Command, get, auth, set, Event, History, Services}
use koko.Web.Router.{post, HttpRequest, serve}
use koko.Web.Router.Unique.{HasUser, AreDistinct, Finds, serve-AreDistinct}
use koko.Web.Concurrent.{arrived_to_add, interleave}
use koko.Web.Concurrent.Duplicates.{twice, interleaved_duplicate}
use koko.Web.Tests.Fixtures.{replies, services, pool, warm, lisi}

abbrev has_user : Text → History → Bool
has_user n [] = false
has_user n (Event.create_user u ∷ h) = text_eq u.username n || has_user n h
has_user n (_ ∷ h) = has_user n h

has_user-HasUser :
    (n : Text) (h : History)
    → (HasUser n h → has_user n h ≡ true) × (has_user n h ≡ true → HasUser n h)
has_user-HasUser n [] = (λ e. absurd e, λ e. cc)
has_user-HasUser n (Event.create_user u ∷ h) =
    ground (arith, has_user-HasUser n h, text_eq_iff u.username n)
has_user-HasUser n (Event.rand_intn k ∷ h) = has_user-HasUser n h
has_user-HasUser n (Event.redis_do c ∷ h) = has_user-HasUser n h
has_user-HasUser n (Event.new_client a b c ∷ h) = has_user-HasUser n h
has_user-HasUser n (Event.send_sms r ∷ h) = has_user-HasUser n h
has_user-HasUser n (Event.first_user_id m ∷ h) = has_user-HasUser n h
has_user-HasUser n (Event.find_phone m ∷ h) = has_user-HasUser n h
has_user-HasUser n (Event.find_users a b ∷ h) = has_user-HasUser n h
has_user-HasUser n (Event.create_message m ∷ h) = has_user-HasUser n h

-- A table that finds what was added.
abbrev table : Services
table = record services { id_of = λ h n. if has_user n h then 1 else 0 }

table-Finds : Finds table
table-Finds h n has = ground (arith, has_user-HasUser n h)

free : (h : History) → ¬ HasUser (bytes "lisi") h → table.id_of h (bytes "lisi") ≡ 0
free h absent = ground (arith, has_user-HasUser (bytes "lisi") h)

abbrev add : HttpRequest
add = record { method = post; path = bytes "/api/v1/user/add"; query = []; body = lisi }

serve-AreDistinct_example : AreDistinct (serve table (add ∷ add ∷ []) warm).calls
serve-AreDistinct_example = serve-AreDistinct table (add ∷ add ∷ []) warm table-Finds tt

stores : (c : Command) → (replies c).1 ≡ false
stores (get k) = refl
stores (auth k) = refl
stores (set k v t) = refl

interleaved_duplicate_example :
    ¬ AreDistinct
      (interleave table twice (arrived_to_add lisi ∷ arrived_to_add lisi ∷ []) warm).1.calls
interleaved_duplicate_example =
    interleaved_duplicate table lisi warm {p = pool} refl (λ h c. stores c) (λ h u. refl) refl
      (bytes "lisi") refl free (λ has. has)
