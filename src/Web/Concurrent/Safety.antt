-- ===== src/Web/Concurrent/Safety.antt =====
-- What holds of the server however the stages of its requests interleave.
use koko.Base.{
  ℕ, zero, suc, ◌+◌, ◌≤◌, ◌≡◌, refl, List, [], ◌∷◌, Option, none, some, map, length, All, arith,
}
use koko.Web.World.{Services, App}
use koko.Web.Router.{HttpRequest, Handler, find_route, routes}
use koko.Web.Router.Safety.{HasMassage}
use koko.Web.Router.Startup.{added_users}
use koko.Web.Concurrent.{first_stage, Request, arrived, advance_at, interleave}
use koko.Web.Concurrent.Spending.{rows_left, answers_left, advance-Spends}

abbrev total : List Request → ℕ
total [] = 0
total (q ∷ qs) = rows_left q.stage + total qs

abbrev Fair : Request → Type 0
Fair q = (length q.written + answers_left q.stage ≤ 2) × All HasMassage q.written

-- The rows asked for, with those that the requests may still ask for.
abbrev rows : List Request → App → ℕ
rows qs w = length (added_users w.calls) + total qs

module _ (S : Services) where
  advance_at-rows :
      (i : ℕ) (qs : List Request) (w : App)
      → rows (advance_at S i qs w).0 (advance_at S i qs w).1 ≤ rows qs w
  unfolding advance_at
  advance_at-rows i [] w = omega arith
  advance_at-rows zero (q ∷ qs) w =
      omega (arith, (advance-Spends S (record w { written = q.written }) q.stage).0)
  advance_at-rows (suc i) (q ∷ qs) w = omega (arith, advance_at-rows i qs w)

  advance_at-Fair :
      (i : ℕ) (qs : List Request) (w : App) → All Fair qs → All Fair (advance_at S i qs w).0
  unfolding advance_at
  advance_at-Fair i [] w h = h
  advance_at-Fair zero (q ∷ qs) w ((few, told), h) =
      let (_, spent, tells) = advance-Spends S (record w { written = q.written }) q.stage in
      ((omega (arith, spent, few), tells told), h)
  advance_at-Fair (suc i) (q ∷ qs) w (fair, h) = (fair, advance_at-Fair i qs w h)

  interleave-rows :
      (schedule : List ℕ) (qs : List Request) (w : App)
      → rows (interleave S schedule qs w).0 (interleave S schedule qs w).1 ≤ rows qs w
  unfolding interleave
  interleave-rows [] qs w = omega arith
  interleave-rows (i ∷ schedule) qs w = omega (
    arith,
    advance_at-rows i qs w,
    interleave-rows schedule (advance_at S i qs w).0 (advance_at S i qs w).1,
  )

  interleave-Fair :
      (schedule : List ℕ) (qs : List Request) (w : App)
      → All Fair qs
      → All Fair (interleave S schedule qs w).0
  unfolding interleave
  interleave-Fair [] qs w h = h
  interleave-Fair (i ∷ schedule) qs w h =
      interleave-Fair schedule (advance_at S i qs w).0 (advance_at S i qs w).1
        (advance_at-Fair i qs w h)

-- At most two answers, each with the message of its status.
abbrev pub IsAnswered : Request → Type 0
IsAnswered q = (length q.written ≤ 2) × All HasMassage q.written

Fair-IsAnswered : (qs : List Request) → All Fair qs → All IsAnswered qs
Fair-IsAnswered [] h = tt
Fair-IsAnswered (q ∷ qs) ((few, told), h) = ((omega (arith, few), told), Fair-IsAnswered qs h)

-- The requests that have the route of `UserAdd`.
abbrev adds : Option Handler → ℕ
adds none = 0
adds (some Handler.user_add) = 1
adds (some _) = 0

abbrev pub add_requests : List HttpRequest → ℕ
add_requests [] = 0
add_requests (r ∷ rs) = adds (find_route routes r.method r.path) + add_requests rs

-- Where a request starts it may ask for one row if it has that route, and give two answers.
first_stage-le :
    (h : Option Handler) (r : HttpRequest)
    → (rows_left (first_stage h r) ≡ adds h) × (answers_left (first_stage h r) ≤ 2)
unfolding first_stage
first_stage-le none r = ground arith
first_stage-le (some Handler.user_add) r = ground arith
first_stage-le (some Handler.user_query) r = ground arith
first_stage-le (some Handler.user_edit) r = ground arith
first_stage-le (some Handler.user_del) r = ground arith
first_stage-le (some Handler.reset_password) r = ground arith
first_stage-le (some Handler.information_commit) r = ground arith

total-arrived : (rs : List HttpRequest) → total (map arrived rs) ≡ add_requests rs
unfolding arrived
total-arrived [] = refl
total-arrived (r ∷ rs) =
    omega (arith, (first_stage-le (find_route routes r.method r.path) r).0, total-arrived rs)

arrived-Fair : (rs : List HttpRequest) → All Fair (map arrived rs)
unfolding arrived
arrived-Fair [] = tt
arrived-Fair (r ∷ rs) =
    ((omega (arith, (first_stage-le (find_route routes r.method r.path) r).1), tt), arrived-Fair rs)

-- However the stages of any requests interleave, and wherever they stop, no more rows are asked for
-- than there are requests with the route to add a user, and each request has got at most two answers,
-- each with the message of its status.
pub interleave-IsSafe :
    (S : Services) (schedule : List ℕ) (rs : List HttpRequest) (w : App)
    → let (qs, v) = interleave S schedule (map arrived rs) w in
      (length (added_users v.calls) ≤ length (added_users w.calls) + add_requests rs)
      × All IsAnswered qs
interleave-IsSafe S schedule rs w = (
  omega (arith, interleave-rows S schedule (map arrived rs) w, total-arrived rs),
  Fair-IsAnswered _ (interleave-Fair S schedule (map arrived rs) w (arrived-Fair rs)),
)
