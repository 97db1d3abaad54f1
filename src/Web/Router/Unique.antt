-- ===== src/Web/Router/Unique.antt =====
-- No name is added twice by requests that are handled one after the other.
use koko.Base.{◌<◌, ◌≡◌, List, [], ◌∷◌, ◌⊎◌, inl, inr, Option, some, none, Option-cases, arith}
use koko.Go.Text.{Text, bytes}
use koko.Web.World.{create_user, History, Services, App}
use koko.Web.Api.{Body, user_add, user_edit, reset_password, information_commit}
use koko.Web.Api.Registration.{user_add_lem, user_add_lem_no_pool, name}
use koko.Web.Api.Passwords.{reset_password_lem, information_commit_lem, information_commit_no_pool}
use koko.Web.Api.Users.{user_edit_lem, user_del-eq-user_edit, user_query_lem}
use koko.Web.Router.{HttpRequest, Handler, find_route, routes, query, dispatch, serve_one, serve}

-- A row was asked for under the name.
abbrev pub HasUser : Text → History → Type 0
HasUser n [] = ⊥
HasUser n (create_user u ∷ h) = (u.username ≡ n) ⊎ HasUser n h
HasUser n (_ ∷ h) = HasUser n h

-- No two rows were asked for under one name.
abbrev pub AreDistinct : History → Type 0
AreDistinct [] = Unit
AreDistinct (create_user u ∷ h) = (¬ HasUser u.username h) × AreDistinct h
AreDistinct (_ ∷ h) = AreDistinct h

-- A lookup finds every row that was asked for.
abbrev pub Finds : Services → Type 0
Finds S = (h : History) (n : Text) → HasUser n h → 0 < S.id_of h n

module _ (S : Services) (finds : Finds S) (w : App) (v : AreDistinct w.calls) where
  user_add-AreDistinct : (b : Body) → AreDistinct (user_add S b w).1.calls
  user_add-AreDistinct b = elim (Option-cases w.pool) [
    | inl cold ↦ ground (arith, user_add_lem_no_pool S b w cold)
    | inr (p, ready) ↦ ground (arith, user_add_lem S b w ready, finds w.calls (name S b w))
  ]

  reset_password-AreDistinct : (user : Text) → AreDistinct (reset_password S user w).1.calls
  reset_password-AreDistinct user = ground (arith, reset_password_lem S user w)

  information_commit-AreDistinct :
      (code name : Text) → AreDistinct (information_commit S code name w).1.calls
  information_commit-AreDistinct code name = elim (Option-cases w.pool) [
    | inl cold ↦ ground (arith, information_commit_no_pool S code name w cold)
    | inr (p, ready) ↦ ground (arith, information_commit_lem S code name w ready)
  ]

  user_edit-AreDistinct : (name : Text) → AreDistinct (user_edit S name w).1.calls
  user_edit-AreDistinct name = ground (arith, user_edit_lem S name w)

  dispatch-AreDistinct :
      (h : Option Handler) (r : HttpRequest) → AreDistinct (dispatch S h r w).1.calls
  unfolding dispatch
  dispatch-AreDistinct none r = v
  dispatch-AreDistinct (some Handler.user_add) r = user_add-AreDistinct r.body
  dispatch-AreDistinct (some Handler.user_query) r = ground (
    arith,
    user_query_lem S (query (bytes "pagesize") r.query) (query (bytes "pagenum") r.query) w,
  )
  dispatch-AreDistinct (some Handler.user_edit) r = user_edit-AreDistinct _
  dispatch-AreDistinct (some Handler.user_del) r =
      let name = query (bytes "username") r.query in
      rw (user_del-eq-user_edit S name w) (user_edit-AreDistinct name)
  dispatch-AreDistinct (some Handler.reset_password) r = reset_password-AreDistinct _
  dispatch-AreDistinct (some Handler.information_commit) r = information_commit-AreDistinct _ _

-- Over a table in which a lookup finds every row that was asked for: requests that are handled one
-- after the other never ask for two rows under one name, whatever else fails.
pub serve-AreDistinct :
    (S : Services) (rs : List HttpRequest) (w : App)
    → Finds S
    → AreDistinct w.calls
    → AreDistinct (serve S rs w).calls
unfolding serve serve_one
serve-AreDistinct S [] w finds v = v
serve-AreDistinct S (r ∷ rs) w finds v = serve-AreDistinct S rs (serve_one S r w) finds (
    dispatch-AreDistinct S finds (record w { written = [] }) v (find_route routes r.method r.path)
      r)
