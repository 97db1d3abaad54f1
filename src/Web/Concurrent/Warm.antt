-- ===== src/Web/Concurrent/Warm.antt =====
-- Once there is a Redis pool, no request panics.
use koko.Base.{
  ℕ, zero, suc, ◌≤◌, ◌≡◌, ◌≢◌, List, [], ◌∷◌, some, none, map, inl, inr, get_elem?, All, Option,
  Option-cases, arith, refl,
}
use koko.Web.World.{Services, App, Pool}
use koko.Go.Text.{string_of_int}
use koko.Go.Strconv.{atoi}
use koko.Web.Router.{HttpRequest, Handler, find_route, routes}
use koko.Web.Model.Redis.{redis_init}
use koko.Web.Model.Message.{get_user_telephone_number}
use koko.Web.Model.User.{check_user, add_user, get_users, edit_user, del_user}
use koko.Web.Model.Message.Sending.{message_code_send_lem, message_code_vertified_lem}
use koko.Web.Model.Redis.Calls.{message_code_save_lem, message_code_check_lem}
use koko.Web.Api.{should_bind_json, c_json}
use koko.Web.Concurrent.{
  Stage, binding, checking, preparing, saving, sending, adding, answering, finishing, querying,
  editing, deleting, resetting, phoning, drawing, storing, texting, committing, confirming,
  replying, returned, panicked, first_stage, Request, arrived, stage_of, advance, advance_at,
  interleave,
}
use koko.Web.Concurrent.Progress.{turns, interleave-ends}

abbrev IsWarm : Stage × App → Type 0
IsWarm (s, w) = (s ≢ panicked) × (w.pool ≢ none)

module _ (S : Services) (w : App) {p : Pool} (ready : w.pool ≡ some p) where
  abbrev Warms : Stage → Type 0
  Warms s = IsWarm (stage_of (advance S s w).0, (advance S s w).1)

  advance-IsWarm : (s : Stage) → s ≢ panicked → Warms s
  unfolding advance should_bind_json check_user add_user get_users edit_user del_user redis_init
      get_user_telephone_number c_json
  advance-IsWarm (binding b) ne = ground arith
  advance-IsWarm checking ne = ground arith
  advance-IsWarm preparing ne = ground (arith, message_code_vertified_lem S w)
  advance-IsWarm (saving code phone) ne =
      ground (arith, message_code_save_lem S w code w.global_user.username p ready)
  advance-IsWarm (sending x code phone) ne = ground (arith, message_code_send_lem S w code phone)
  advance-IsWarm (adding x a) ne = ground arith
  advance-IsWarm (answering status) ne = ground arith
  advance-IsWarm (finishing status) ne = ground arith
  advance-IsWarm (querying size num) ne = ground arith
  advance-IsWarm (editing name) ne = ground arith
  advance-IsWarm (deleting name) ne = ground arith
  advance-IsWarm (resetting user) ne = ground arith
  advance-IsWarm (phoning user) ne = ground arith
  advance-IsWarm (drawing user phone) ne = ground (arith, message_code_vertified_lem S w)
  advance-IsWarm (storing user phone code) ne =
      ground (arith, message_code_save_lem S w code user p ready)
  advance-IsWarm (texting x user phone code) ne =
      ground (arith, message_code_send_lem S w code phone)
  advance-IsWarm (committing code name) ne = ground (
    arith,
    message_code_check_lem S w (string_of_int (atoi code)) (string_of_int (atoi name)) p ready,
  )
  advance-IsWarm (confirming info) ne = ground arith
  advance-IsWarm (replying status payload) ne = ground arith
  advance-IsWarm returned ne = ground arith
  advance-IsWarm panicked ne = absurd (ne refl)

-- No request has panicked.
abbrev pub IsCalm : Request → Type 0
IsCalm q = q.stage ≢ panicked

-- There is a pool, and no request has panicked.
abbrev AreWarm : List Request × App → Type 0
AreWarm (qs, w) = (w.pool ≢ none) × All IsCalm qs

module _ (S : Services) where
  advance_at-AreWarm :
      (i : ℕ) (qs : List Request) (w : App) → AreWarm (qs, w) → AreWarm (advance_at S i qs w)
  unfolding advance_at
  advance_at-AreWarm i [] w warm = warm
  advance_at-AreWarm zero (q ∷ qs) w (ready, (calm, rest)) = elim (Option-cases w.pool) [
    | inl cold ↦ absurd (ready cold)
    | inr (p, e) ↦
        let (calm', ready') =
          advance-IsWarm S (record w { written = q.written }) {p = p} e q.stage calm in
        (ready', (calm', rest))
  ]
  advance_at-AreWarm (suc i) (q ∷ qs) w (ready, (calm, rest)) =
      let (ready', rest') = advance_at-AreWarm i qs w (ready, rest) in (ready', (calm, rest'))

  interleave-AreWarm :
      (schedule : List ℕ) (qs : List Request) (w : App)
      → AreWarm (qs, w)
      → AreWarm (interleave S schedule qs w)
  unfolding interleave
  interleave-AreWarm [] qs w warm = warm
  interleave-AreWarm (i ∷ schedule) qs w warm =
      interleave-AreWarm schedule (advance_at S i qs w).0 (advance_at S i qs w).1
        (advance_at-AreWarm i qs w warm)

first_stage-calm : (h : Option Handler) (r : HttpRequest) → first_stage h r ≢ panicked
unfolding first_stage
first_stage-calm none r = λ e. cc
first_stage-calm (some Handler.user_add) r = λ e. cc
first_stage-calm (some Handler.user_query) r = λ e. cc
first_stage-calm (some Handler.user_edit) r = λ e. cc
first_stage-calm (some Handler.user_del) r = λ e. cc
first_stage-calm (some Handler.reset_password) r = λ e. cc
first_stage-calm (some Handler.information_commit) r = λ e. cc

arrived-IsCalm : (rs : List HttpRequest) → All IsCalm (map arrived rs)
unfolding arrived
arrived-IsCalm [] = tt
arrived-IsCalm (r ∷ rs) =
    (first_stage-calm (find_route routes r.method r.path) r, arrived-IsCalm rs)

IsCalm-one :
    (i : ℕ) (qs : List Request) {q : Request} → get_elem? qs i ≡ some q → All IsCalm qs → IsCalm q
IsCalm-one i [] e calm = cc
IsCalm-one zero (q ∷ qs) e calm = ground (arith, e)
IsCalm-one (suc i) (q ∷ qs) e calm = IsCalm-one i qs e calm.1

-- Where there is a Redis pool at the start, a request that gets eight turns has returned, and no
-- request panics at any time, however their stages interleave.
pub interleave-returns :
    (S : Services) (schedule : List ℕ) (rs : List HttpRequest) (w : App)
    → w.pool ≢ none
    → All IsCalm (interleave S schedule (map arrived rs) w).0
      × ((i : ℕ) (r : HttpRequest)
          → get_elem? rs i ≡ some r
          → 8 ≤ turns i schedule
          → (q : Request) × (get_elem? (interleave S schedule (map arrived rs) w).0 i ≡ some q)
            × (q.stage ≡ returned))
interleave-returns S schedule rs w ready =
    let (_, calm) = interleave-AreWarm S schedule (map arrived rs) w (ready, arrived-IsCalm rs) in
    (
      calm,
      λ i r there enough.
          let (q, at, over) = interleave-ends S schedule rs w i {r = r} there enough in
          (
            q,
            at,
            elim over [
              | inl fine ↦ fine
              | inr bad ↦
                  absurd (IsCalm-one i (interleave S schedule (map arrived rs) w).0 at calm bad)
            ],
          ),
    )
