-- ===== src/Web/Concurrent/Cold.antt =====
-- Until a password reset makes a Redis pool, no user is added.
use koko.Base.{
  ℕ, zero, suc, ◌≡◌, ◌≢◌, List, [], ◌∷◌, some, none, map, All, Option, arith, refl, ◌∙◌, Bool, true,
  false,
}
use koko.Web.World.{Services, App}
use koko.Go.Text.{string_of_int}
use koko.Go.Strconv.{atoi}
use koko.Web.Router.{HttpRequest, Handler, find_route, routes}
use koko.Web.Router.Startup.{added_users, IsReset}
use koko.Web.Model.Redis.{redis_init}
use koko.Web.Model.Message.{get_user_telephone_number}
use koko.Web.Model.User.{check_user, add_user, get_users, edit_user, del_user}
use koko.Web.Model.Message.Sending.{message_code_send_lem, message_code_vertified_lem}
use koko.Web.Model.Redis.Calls.{message_code_save_no_pool, message_code_check_no_pool}
use koko.Web.Api.{should_bind_json, c_json}
use koko.Web.Concurrent.{
  Stage, binding, checking, preparing, saving, sending, adding, answering, finishing, querying,
  editing, deleting, resetting, phoning, drawing, storing, texting, committing, confirming,
  replying, returned, panicked, first_stage, Request, arrived, stage_of, advance, advance_at,
  interleave,
}

-- The stages that a request without a pool comes to: a code was not stored, and no pool is made.
abbrev is_cold : Stage → Bool
is_cold (sending _ _ _) = false
is_cold (adding _ _) = false
is_cold (resetting _) = false
is_cold _ = true

-- From one stage and state to the next: still no pool, and no user added.
abbrev StaysCold : App → Stage × App → Type 0
StaysCold w (t, v) =
    (is_cold t ≡ true) × (v.pool ≡ none) × (added_users v.calls ≡ added_users w.calls)

module _ (S : Services) (w : App) (cold : w.pool ≡ none) where
  advance-StaysCold :
      (s : Stage) → is_cold s ≡ true → StaysCold w (stage_of (advance S s w).0, (advance S s w).1)
  unfolding advance should_bind_json check_user add_user get_users edit_user del_user redis_init
      get_user_telephone_number c_json
  advance-StaysCold (binding b) early = ground arith
  advance-StaysCold checking early = ground arith
  advance-StaysCold preparing early = ground (arith, message_code_vertified_lem S w)
  advance-StaysCold (saving code phone) early =
      ground (arith, message_code_save_no_pool S w code w.global_user.username cold)
  advance-StaysCold (sending x code phone) early = cc
  advance-StaysCold (adding x a) early = cc
  advance-StaysCold (answering status) early = ground arith
  advance-StaysCold (finishing status) early = ground arith
  advance-StaysCold (querying size num) early = ground arith
  advance-StaysCold (editing name) early = ground arith
  advance-StaysCold (deleting name) early = ground arith
  advance-StaysCold (resetting user) early = cc
  advance-StaysCold (phoning user) early = ground arith
  advance-StaysCold (drawing user phone) early = ground (arith, message_code_vertified_lem S w)
  advance-StaysCold (storing user phone code) early =
      ground (arith, message_code_save_no_pool S w code user cold)
  advance-StaysCold (texting x user phone code) early =
      ground (arith, message_code_send_lem S w code phone)
  advance-StaysCold (committing code name) early = ground (
    arith,
    message_code_check_no_pool S w (string_of_int (atoi code)) (string_of_int (atoi name)) cold,
  )
  advance-StaysCold (confirming info) early = ground arith
  advance-StaysCold (replying status payload) early = ground arith
  advance-StaysCold returned early = ground arith
  advance-StaysCold panicked early = ground arith

abbrev IsCold : Request → Type 0
IsCold q = is_cold q.stage ≡ true

-- The requests and the state after some turns: still no pool, and no user added.
abbrev StayCold : App → List Request × App → Type 0
StayCold w (qs, v) = All IsCold qs × (v.pool ≡ none) × (added_users v.calls ≡ added_users w.calls)

module _ (S : Services) where
  advance_at-StayCold :
      (i : ℕ) (qs : List Request) (w : App)
      → w.pool ≡ none
      → All IsCold qs
      → StayCold w (advance_at S i qs w)
  unfolding advance_at
  advance_at-StayCold i [] w cold early = (tt, cold, refl)
  advance_at-StayCold zero (q ∷ qs) w cold (early, rest) =
      let (early', cold', same) =
        advance-StaysCold S (record w { written = q.written }) cold q.stage early in
      ((early', rest), cold', same)
  advance_at-StayCold (suc i) (q ∷ qs) w cold (early, rest) =
      let (rest', cold', same) = advance_at-StayCold i qs w cold rest in
      ((early, rest'), cold', same)

  interleave-StayCold :
      (schedule : List ℕ) (qs : List Request) (w : App)
      → w.pool ≡ none
      → All IsCold qs
      → StayCold w (interleave S schedule qs w)
  unfolding interleave
  interleave-StayCold [] qs w cold early = (early, cold, refl)
  interleave-StayCold (i ∷ schedule) qs w cold early =
      let (early', cold', same) = advance_at-StayCold i qs w cold early in
      let (early'', cold'', same') =
        interleave-StayCold schedule (advance_at S i qs w).0 (advance_at S i qs w).1 cold' early' in
      (early'', cold'', same' ∙ same)

first_stage-cold :
    (h : Option Handler) (r : HttpRequest)
    → h ≢ some Handler.reset_password
    → is_cold (first_stage h r) ≡ true
unfolding first_stage
first_stage-cold none r ne = refl
first_stage-cold (some Handler.user_add) r ne = refl
first_stage-cold (some Handler.user_query) r ne = refl
first_stage-cold (some Handler.user_edit) r ne = refl
first_stage-cold (some Handler.user_del) r ne = refl
first_stage-cold (some Handler.reset_password) r ne = absurd (ne refl)
first_stage-cold (some Handler.information_commit) r ne = refl

arrived-IsCold : (rs : List HttpRequest) → All (λ r. ¬ IsReset r) rs → All IsCold (map arrived rs)
unfolding arrived
arrived-IsCold [] h = tt
arrived-IsCold (r ∷ rs) (h, hs) =
    (first_stage-cold (find_route routes r.method r.path) r h, arrived-IsCold rs hs)

-- With no Redis pool at the start and no request to reset a password, no user is added and no pool
-- is made, however the stages of the requests interleave and wherever they stop.
pub interleave_before_reset :
    (S : Services) (schedule : List ℕ) (rs : List HttpRequest) (w : App)
    → w.pool ≡ none
    → All (λ r. ¬ IsReset r) rs
    → let v = (interleave S schedule (map arrived rs) w).1 in
      (v.pool ≡ none) × (added_users v.calls ≡ added_users w.calls)
interleave_before_reset S schedule rs w cold h =
    let (_, cold', same) =
      interleave-StayCold S schedule (map arrived rs) w cold (arrived-IsCold rs h) in
    (cold', same)
