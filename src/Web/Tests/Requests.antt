-- ===== src/Web/Tests/Requests.antt =====
-- go-web's server over concrete requests.
use koko.Base.{[], ◌∷◌, arith}
use koko.Go.Text.{Text, bytes}
use koko.Web.Router.{Method, HttpRequest, post, put, serve}
use koko.Web.Router.Safety.{IsSound, serve-IsSound}
use koko.Web.Tests.Fixtures.{services, cold, lisi}

abbrev request : Method → Text → HttpRequest
request m path = record { method = m; path = path; query = []; body = lisi }

abbrev add_lisi : HttpRequest
add_lisi = request post (bytes "/api/v1/user/add")

abbrev reset : HttpRequest
reset = request put (bytes "/api/v1/user/changepasswd")

abbrev commit : HttpRequest
commit = request put (bytes "/api/v1/user/informationcommit")

abbrev cold-IsSound : IsSound cold
cold-IsSound = record { vetted = tt; answers = omega arith; massages = tt }

serve-IsSound_example : IsSound (serve services (reset ∷ add_lisi ∷ commit ∷ []) cold)
serve-IsSound_example = serve-IsSound services (reset ∷ add_lisi ∷ commit ∷ []) cold cold-IsSound
