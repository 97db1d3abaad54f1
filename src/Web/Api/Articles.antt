-- ===== src/Web/Api/Articles.antt =====
-- go-web/api/v1/article.go: five handlers with empty bodies, to which no route leads.
use koko.Web.World.{M, ⊤, pure}

unfoldable pub art_query : M ⊤
art_query = pure tt

unfoldable pub art_query_list : M ⊤
art_query_list = pure tt

unfoldable pub art_add : M ⊤
art_add = pure tt

unfoldable pub art_edit : M ⊤
art_edit = pure tt

unfoldable pub art_del : M ⊤
art_del = pure tt
