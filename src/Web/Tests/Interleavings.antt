-- ===== src/Web/Tests/Interleavings.antt =====
-- Requests that interleave, at concrete inputs.
use koko.Base.{none, ℕ, List, arith, get_elem?, ◌≤◌, ◌≡◌, refl, [], ◌∷◌, some, map, length, All}
use koko.Go.Text.{Text, bytes}
use koko.Web.World.{User, Event, History}
use koko.Web.Router.Safety.{HasCode}
use koko.Web.Router.Startup.{added_users, IsReset}
use koko.Web.Api.{Body, bind_user}
use koko.Web.Concurrent.{returned, Request, arrived, arrived_to_add, interleave}
use koko.Web.Router.{Method, post, put, HttpRequest, find_route, routes}
use koko.Web.Concurrent.Progress.{turns, IsOver, interleave-ends}
use koko.Web.Concurrent.Warm.{IsCalm, interleave-returns}
use koko.Web.Concurrent.Cold.{interleave_before_reset}
use koko.Web.Concurrent.Races.{race, interleaved_unvetted}
use koko.Web.Concurrent.Safety.{IsAnswered, add_requests, interleave-IsSafe}
use koko.Web.Tests.Fixtures.{services, pool, cold, warm, lisi}

abbrev wangwu : Body
wangwu = record lisi { username = some (bytes "wangwu"); phone = some (bytes "13600000000") }

abbrev request : Method → Text → Body → HttpRequest
request m path b = record { method = m; path = path; query = []; body = b }

abbrev add : Body → HttpRequest
add = request post (bytes "/api/v1/user/add")

abbrev reset : HttpRequest
reset = request put (bytes "/api/v1/user/changepasswd") lisi

interleaved_unvetted_example :
    let v = (interleave services race (arrived_to_add lisi ∷ arrived_to_add wangwu ∷ []) warm).1 in
    (u : User) × (older : History) × (v.calls ≡ Event.create_user u ∷ older)
    × (u.username ≡ bytes "wangwu")
    × ¬ HasCode (bytes "wangwu") older
unfolding bind_user
interleaved_unvetted_example =
    interleaved_unvetted services lisi wangwu warm {p = pool} refl refl refl refl (bytes "wangwu")
      refl (λ e. cc) (λ has. has)

-- A user is added while a password is reset, and then another.
abbrev mixed : List HttpRequest
mixed = add lisi ∷ reset ∷ add wangwu ∷ []

adds : add_requests mixed ≡ 2
unfolding find_route routes
adds = refl

interleave-IsSafe_example :
    let (qs, v) = interleave services (0 ∷ 1 ∷ 1 ∷ 0 ∷ 2 ∷ 0 ∷ []) (map arrived mixed) warm in
    (length (added_users v.calls) ≤ 2) × All IsAnswered qs
unfolding find_route routes
interleave-IsSafe_example = interleave-IsSafe services (0 ∷ 1 ∷ 1 ∷ 0 ∷ 2 ∷ 0 ∷ []) mixed warm

-- Two requests, turn about.
abbrev turn_about : List ℕ
turn_about = 0 ∷ 1 ∷ 0 ∷ 1 ∷ 0 ∷ 1 ∷ 0 ∷ 1 ∷ 0 ∷ 1 ∷ 0 ∷ 1 ∷ 0 ∷ 1 ∷ 0 ∷ 1 ∷ []

interleave-ends_example :
    (q : Request) × (get_elem? (interleave services turn_about (map arrived mixed) warm).0 1
      ≡ some q)
    × IsOver q
interleave-ends_example =
    interleave-ends services turn_about mixed warm 1 {r = reset} refl (omega arith)

interleave-returns_example :
    All IsCalm (interleave services turn_about (map arrived mixed) warm).0
    × ((i : ℕ) (r : HttpRequest)
        → get_elem? mixed i ≡ some r
        → 8 ≤ turns i turn_about
        → (q : Request) × (get_elem? (interleave services turn_about (map arrived mixed) warm).0 i
            ≡ some q)
          × (q.stage ≡ returned))
interleave-returns_example = interleave-returns services turn_about mixed warm (λ e. cc)

-- Two requests to add a user, and none to reset a password.
abbrev only_adds : List HttpRequest
only_adds = add lisi ∷ add wangwu ∷ []

add-IsNoReset : (b : Body) → ¬ IsReset (add b)
unfolding find_route routes
add-IsNoReset b = λ e. cc

interleave_before_reset_example :
    let v = (interleave services turn_about (map arrived only_adds) cold).1 in
    (v.pool ≡ none) × (added_users v.calls ≡ [])
interleave_before_reset_example =
    interleave_before_reset services turn_about only_adds cold refl
      (add-IsNoReset lisi, (add-IsNoReset wangwu, tt))
