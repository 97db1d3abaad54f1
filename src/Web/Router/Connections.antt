-- ===== src/Web/Router/Connections.antt =====
-- Connections to Redis that the server takes from its pool and never closes.
use koko.Base.{◌≡◌, some}
use koko.Web.Router.{HttpRequest, Handler, find_route, routes}

abbrev pub IsCommit : HttpRequest → Type 0
IsCommit r = find_route routes r.method r.path ≡ some Handler.information_commit
