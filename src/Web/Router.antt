-- ===== src/Web/Router.antt =====
-- go-web/routers/routers.go: the routes, and the server over a sequence of requests. gin's
-- Recovery, which `gin.Default` installs, answers a panic and lets the server go on.
pub mod Safety
pub mod Unique
pub mod Connections
pub mod Startup
use koko.Base.{List, [], ◌∷◌, Option, none, some, Bool, true, false, ◌&&◌, text_eq, if◌then◌else◌}
use koko.Go.Text.{Text, bytes}
use koko.Web.World.{Services, App, M, ⊤, pure}
use koko.Web.Api
use koko.Web.Api.{Body}

pub data Method : Type 0 where
  get post put delete : Method

abbrev same_method : Method → Method → Bool
same_method get get = true
same_method post post = true
same_method put put = true
same_method delete delete = true
same_method _ _ = false

pub record HttpRequest : Type 0 where
  pub method : Method
  pub path : Text
  pub query : List (Text × Text)
  pub body : Body

-- The handlers of package v1 that have a route.
pub data Handler : Type 0 where
  user_add user_query user_edit user_del reset_password information_commit : Handler

-- `InitRouter`, behind the group "api/v1".
unfoldable pub routes : List (Method × Text × Handler)
routes =
    (post, bytes "/api/v1/user/add", Handler.user_add)
    ∷ (get, bytes "/api/v1/user/get", Handler.user_query)
    ∷ (put, bytes "/api/v1/user/put", Handler.user_edit)
    ∷ (delete, bytes "/api/v1/user/del", Handler.user_del)
    ∷ (put, bytes "/api/v1/user/changepasswd", Handler.reset_password)
    ∷ (put, bytes "/api/v1/user/informationcommit", Handler.information_commit)
    ∷ []

unfoldable pub find_route : List (Method × Text × Handler) → Method → Text → Option Handler
find_route [] m p = none
find_route ((m', p', h) ∷ rs) m p =
    if same_method m' m && text_eq p' p then some h else find_route rs m p

-- `c.Query`: the first value of the key, or "".
unfoldable pub query : Text → List (Text × Text) → Text
query k [] = []
query k ((j, v) ∷ q) = if text_eq j k then v else query k q

module _ (S : Services) where
  unfoldable pub handle : Handler → HttpRequest → M ⊤
  handle Handler.user_add r = Api.user_add S r.body
  handle Handler.user_query r =
      Api.user_query S (query (bytes "pagesize") r.query) (query (bytes "pagenum") r.query)
  handle Handler.user_edit r = Api.user_edit S (query (bytes "username") r.query)
  handle Handler.user_del r = Api.user_del S (query (bytes "username") r.query)
  handle Handler.reset_password r = Api.reset_password S (query (bytes "username") r.query)
  handle Handler.information_commit r =
      Api.information_commit S (query (bytes "receiveCode") r.query)
        (query (bytes "username") r.query)

  -- A path with no route reaches no handler.
  unfoldable pub dispatch : Option Handler → HttpRequest → M ⊤
  unfolding handle
  dispatch none r = pure tt
  dispatch (some h) r = handle h r

  unfoldable pub serve_one : HttpRequest → App → App
  unfolding dispatch
  serve_one r w = (dispatch (find_route routes r.method r.path) r (record w { written = [] })).1

  unfoldable pub serve : List HttpRequest → App → App
  unfolding serve_one
  serve [] w = w
  serve (r ∷ rs) w = serve rs (serve_one r w)
