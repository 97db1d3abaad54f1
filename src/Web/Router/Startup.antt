-- ===== src/Web/Router/Startup.antt =====
-- The server as `main` starts it: the Redis pool is nil, and only a password reset makes one.
use koko.Base.{◌≡◌, ◌≢◌, refl, ◌∙◌, List, [], ◌∷◌, Option, some, none, arith, All}
use koko.Go.Text.{Text, bytes}
use koko.Web.World.{User, create_user, History, Services, App}
use koko.Web.Api.{user_edit}
use koko.Web.Api.Registration.{user_add_lem_no_pool}
use koko.Web.Api.Passwords.{information_commit_no_pool}
use koko.Web.Api.Users.{user_edit_lem, user_del-eq-user_edit, user_query_lem}
use koko.Web.Router.{HttpRequest, Handler, find_route, routes, query, dispatch, serve_one, serve}

-- The users that the table was asked to take, the newest first.
abbrev pub added_users : History → List User
added_users [] = []
added_users (create_user u ∷ h) = u ∷ added_users h
added_users (_ ∷ h) = added_users h

abbrev pub IsReset : HttpRequest → Type 0
IsReset r = find_route routes r.method r.path ≡ some Handler.reset_password

abbrev Unchanged : App → App → Type 0
Unchanged w v = (v.pool ≡ none) × (added_users v.calls ≡ added_users w.calls)

module _ (S : Services) (w : App) (cold : w.pool ≡ none) where
  user_edit-Unchanged : (name : Text) → Unchanged w (user_edit S name w).1
  user_edit-Unchanged name = ground (arith, user_edit_lem S name w)

  dispatch-Unchanged :
      (h : Option Handler) (r : HttpRequest)
      → h ≢ some Handler.reset_password
      → Unchanged w (dispatch S h r w).1
  unfolding dispatch
  dispatch-Unchanged none r ne = ground arith
  dispatch-Unchanged (some Handler.user_add) r ne =
      ground (arith, user_add_lem_no_pool S r.body w cold)
  dispatch-Unchanged (some Handler.user_query) r ne = ground (
    arith,
    user_query_lem S (query (bytes "pagesize") r.query) (query (bytes "pagenum") r.query) w,
  )
  dispatch-Unchanged (some Handler.user_edit) r ne = user_edit-Unchanged _
  dispatch-Unchanged (some Handler.user_del) r ne =
      let name = query (bytes "username") r.query in
      rw (user_del-eq-user_edit S name w) (user_edit-Unchanged name)
  dispatch-Unchanged (some Handler.reset_password) r ne = absurd (ne refl)
  dispatch-Unchanged (some Handler.information_commit) r ne = ground (
    arith,
    information_commit_no_pool S (query (bytes "receiveCode") r.query)
        (query (bytes "username") r.query) w cold,
  )

-- Until a password reset is requested the pool stays nil, and no request adds a user.
pub serve_before_reset :
    (S : Services) (rs : List HttpRequest) (w : App)
    → w.pool ≡ none
    → All (λ r. ¬ IsReset r) rs
    → ((serve S rs w).pool ≡ none) × (added_users (serve S rs w).calls ≡ added_users w.calls)
unfolding serve serve_one
serve_before_reset S [] w cold h = (cold, refl)
serve_before_reset S (r ∷ rs) w cold h =
    let u =
      dispatch-Unchanged S (record w { written = [] }) cold (find_route routes r.method r.path) r
        h.0 in
    let rest = serve_before_reset S rs (serve_one S r w) u.0 h.1 in (rest.0, rest.1 ∙ u.1)
