-- ===== src/Web/Model/User.antt =====
-- go-web/model/User.go: the users' table.
use koko.Base.{ℕ, ℤ, pos, List, Option, none, some, ltb, if◌then◌else◌}
use koko.Base.Int.{wrap64, ◌-ℤ◌, ◌*ℤ◌}
use koko.Go.Text.{Text}
use koko.Web.Errmsg.{success, error, user_exist}
use koko.Web.World.{User, Event, Services, FindError, record_not_found, other, M, pure, ◌>>=◌, call}

-- the row before the page, in 64 bits
unfoldable pub page_offset : ℤ → ℤ → ℤ
page_offset page_size page_number = wrap64 (wrap64 (page_number -ℤ pos 1) *ℤ page_size)

abbrev pub users_or_nil : List User × Option FindError → Option (List User)
users_or_nil (us, none) = some us
users_or_nil (us, some record_not_found) = some us
users_or_nil (us, some other) = none

module _ (S : Services) where
  unfoldable pub check_user : Text → M ℕ
  check_user name = do
    id ← call (Event.first_user_id name) (λ h. S.id_of h name)
    pure (if ltb 0 id then user_exist else success)

  -- `Create` writes into the struct that `data` points to: it comes back with the code.
  unfoldable pub add_user : User → M (User × ℕ)
  add_user u = do
    (u', err) ← call (Event.create_user u) (λ h. S.create h u)
    pure (u', if err then error else success)

  unfoldable pub get_users : ℤ → ℤ → M (Option (List User))
  unfolding page_offset
  get_users page_size page_number =
      let offset = page_offset page_size page_number in
      do
        r ← call (Event.find_users page_size offset) (λ h. S.users_of h page_size offset)
        pure (users_or_nil r)

-- Both are stubs in the source: they do nothing and return 0.
unfoldable pub edit_user : Text → M ℕ
edit_user user_name = pure 0

unfoldable pub del_user : M ℕ
del_user = pure 0
