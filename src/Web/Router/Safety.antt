-- ===== src/Web/Router/Safety.antt =====
-- What holds of the server after any sequence of requests.
use koko.Base.{
  ◌≤◌, ◌≡◌, refl, List, [], ◌∷◌, ◌⊎◌, inl, inr, Option, some, none, Option-cases, arith, length,
  All,
}
use koko.Go.Text.{Text, bytes}
use koko.Web.Errmsg.{get_err}
use koko.Web.World.{Response, set, Event, create_user, History, Services, App}
use koko.Web.Api.{Body, user_add, user_query, user_edit, reset_password, information_commit}
use koko.Web.Api.Registration.{user_add_lem, user_add_lem_no_pool}
use koko.Web.Api.Passwords.{reset_password_lem, information_commit_lem, information_commit_no_pool}
use koko.Web.Api.Users.{user_edit_lem, user_del-eq-user_edit, user_query_lem}
use koko.Web.Router.{HttpRequest, Handler, find_route, routes, query, dispatch, serve_one, serve}

-- The command that stores a code for the name was sent.
abbrev pub HasCode : Text → History → Type 0
HasCode name [] = ⊥
HasCode name (Event.redis_do (set k v t) ∷ h) = (k ≡ name) ⊎ HasCode name h
HasCode name (_ ∷ h) = HasCode name h

-- Every user was added after that command for the user's name.
abbrev pub Vetted : History → Type 0
Vetted [] = Unit
Vetted (create_user u ∷ h) = HasCode u.username h × Vetted h
Vetted (_ ∷ h) = Vetted h

abbrev pub HasMassage : Response → Type 0
HasMassage r = r.massage ≡ get_err r.status

pub record IsSound (w : App) : Type 0 where
  pub vetted : Vetted w.calls
  pub answers : length w.written ≤ 2
  pub massages : All HasMassage w.written

module _ (S : Services) (w : App) (quiet : w.written ≡ []) (v : Vetted w.calls) where
  user_add-IsSound : (b : Body) → IsSound (user_add S b w).1
  user_add-IsSound b = elim (Option-cases w.pool) [
    | inl cold ↦ ground (arith, user_add_lem_no_pool S b w cold)
    | inr (p, ready) ↦ ground (arith, user_add_lem S b w ready)
  ]

  reset_password-IsSound : (user : Text) → IsSound (reset_password S user w).1
  reset_password-IsSound user = ground (arith, reset_password_lem S user w)

  information_commit-IsSound : (code name : Text) → IsSound (information_commit S code name w).1
  information_commit-IsSound code name = elim (Option-cases w.pool) [
    | inl cold ↦ ground (arith, information_commit_no_pool S code name w cold)
    | inr (p, ready) ↦ ground (arith, information_commit_lem S code name w ready)
  ]

  user_edit-IsSound : (name : Text) → IsSound (user_edit S name w).1
  user_edit-IsSound name = ground (arith, user_edit_lem S name w)

  user_query-IsSound : (size num : Text) → IsSound (user_query S size num w).1
  user_query-IsSound size num = ground (arith, user_query_lem S size num w)

  dispatch-IsSound : (h : Option Handler) (r : HttpRequest) → IsSound (dispatch S h r w).1
  unfolding dispatch
  dispatch-IsSound none r = ground arith
  dispatch-IsSound (some Handler.user_add) r = user_add-IsSound r.body
  dispatch-IsSound (some Handler.user_query) r = user_query-IsSound _ _
  dispatch-IsSound (some Handler.user_edit) r = user_edit-IsSound _
  dispatch-IsSound (some Handler.user_del) r =
      let name = query (bytes "username") r.query in
      rw (user_del-eq-user_edit S name w) (user_edit-IsSound name)
  dispatch-IsSound (some Handler.reset_password) r = reset_password-IsSound _
  dispatch-IsSound (some Handler.information_commit) r = information_commit-IsSound _ _

serve_one-IsSound :
    (S : Services) (r : HttpRequest) (w : App) → Vetted w.calls → IsSound (serve_one S r w)
unfolding serve_one
serve_one-IsSound S r w v =
    dispatch-IsSound S (record w { written = [] }) refl v (find_route routes r.method r.path) r

-- From a state in which every user was added after a SET of a code for the name, and the last
-- request got at most two answers, each with the message of its status, any sequence of requests
-- leads to such a state.
pub serve-IsSound :
    (S : Services) (rs : List HttpRequest) (w : App) → IsSound w → IsSound (serve S rs w)
unfolding serve
serve-IsSound S [] w h = h
serve-IsSound S (r ∷ rs) w h =
    serve-IsSound S rs (serve_one S r w) (serve_one-IsSound S r w h.vetted)
