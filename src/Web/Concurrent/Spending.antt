-- ===== src/Web/Concurrent/Spending.antt =====
-- What one stage spends of the rows and the answers that its request may give.
use koko.Base.{ℕ, ◌+◌, ◌≤◌, length, All, inl, inr, Option-cases, arith}
use koko.Web.World.{Services, App}
use koko.Go.Text.{Text, string_of_int}
use koko.Go.Strconv.{atoi}
use koko.Web.Model.Redis.{redis_init}
use koko.Web.Model.Message.{get_user_telephone_number}
use koko.Web.Model.User.{check_user, add_user, get_users, edit_user, del_user}
use koko.Web.Model.Message.Sending.{message_code_send_lem, message_code_vertified_lem}
use koko.Web.Model.Redis.Calls.{
  message_code_save_lem, message_code_save_no_pool, message_code_check_lem,
  message_code_check_no_pool,
}
use koko.Web.Api.{should_bind_json, c_json}
use koko.Web.Router.Safety.{HasMassage}
use koko.Web.Router.Startup.{added_users}
use koko.Web.Concurrent.{
  Stage, binding, checking, preparing, saving, sending, adding, answering, finishing, querying,
  editing, deleting, resetting, phoning, drawing, storing, texting, committing, confirming,
  replying, returned, panicked, stage_of, advance,
}

-- The rows that a request may still ask for, and the answers that it may still give.
abbrev pub rows_left : Stage → ℕ
rows_left (binding _) = 1
rows_left checking = 1
rows_left preparing = 1
rows_left (saving _ _) = 1
rows_left (sending _ _ _) = 1
rows_left (adding _ _) = 1
rows_left _ = 0

abbrev pub answers_left : Stage → ℕ
answers_left (binding _) = 2
answers_left checking = 2
answers_left preparing = 2
answers_left (saving _ _) = 2
answers_left (sending _ _ _) = 2
answers_left (adding _ _) = 2
answers_left (answering _) = 2
answers_left returned = 0
answers_left panicked = 0
answers_left _ = 1

-- From one stage and state to the next, nothing is gained.
abbrev pub Spends : Stage → App → Stage → App → Type 0
Spends s w t v =
    (length (added_users v.calls) + rows_left t ≤ length (added_users w.calls) + rows_left s)
    × (length v.written + answers_left t ≤ length w.written + answers_left s)
    × (All HasMassage w.written → All HasMassage v.written)

module _ (S : Services) (w : App) where
  saving-Spends :
      (code phone : _)
      → Spends
          (saving code phone)
          w
          (stage_of (advance S (saving code phone) w).0)
          (advance S (saving code phone) w).1
  unfolding advance
  saving-Spends code phone = elim (Option-cases w.pool) [
    | inl cold ↦ ground (arith, message_code_save_no_pool S w code w.global_user.username cold)
    | inr (p, ready) ↦ ground (arith, message_code_save_lem S w code w.global_user.username p ready)
  ]

  sending-Spends :
      (x : ℕ) (code phone : _)
      → Spends
          (sending x code phone)
          w
          (stage_of (advance S (sending x code phone) w).0)
          (advance S (sending x code phone) w).1
  unfolding advance
  sending-Spends x code phone = ground (arith, message_code_send_lem S w code phone)

  storing-Spends :
      (user phone code : Text)
      → Spends
          (storing user phone code)
          w
          (stage_of (advance S (storing user phone code) w).0)
          (advance S (storing user phone code) w).1
  unfolding advance
  storing-Spends user phone code = elim (Option-cases w.pool) [
    | inl cold ↦ ground (arith, message_code_save_no_pool S w code user cold)
    | inr (p, ready) ↦ ground (arith, message_code_save_lem S w code user p ready)
  ]

  committing-Spends :
      (code name : Text)
      → Spends
          (committing code name)
          w
          (stage_of (advance S (committing code name) w).0)
          (advance S (committing code name) w).1
  unfolding advance edit_user
  committing-Spends code name =
      let c = string_of_int (atoi code) in
      let n = string_of_int (atoi name) in
      elim (Option-cases w.pool) [
        | inl cold ↦ ground (arith, message_code_check_no_pool S w c n cold)
        | inr (p, ready) ↦ ground (arith, message_code_check_lem S w c n p ready)
      ]

  pub advance-Spends : (s : Stage) → Spends s w (stage_of (advance S s w).0) (advance S s w).1
  unfolding advance should_bind_json check_user add_user get_users edit_user del_user redis_init
      get_user_telephone_number c_json
  advance-Spends (binding b) = ground arith
  advance-Spends checking = ground arith
  advance-Spends preparing = ground (arith, message_code_vertified_lem S w)
  advance-Spends (saving code phone) = saving-Spends code phone
  advance-Spends (sending x code phone) = sending-Spends x code phone
  advance-Spends (adding x a) = ground arith
  advance-Spends (answering status) = ground arith
  advance-Spends (finishing status) = ground arith
  advance-Spends (querying size num) = ground arith
  advance-Spends (editing name) = ground arith
  advance-Spends (deleting name) = ground arith
  advance-Spends (resetting user) = ground arith
  advance-Spends (phoning user) = ground arith
  advance-Spends (drawing user phone) = ground (arith, message_code_vertified_lem S w)
  advance-Spends (storing user phone code) = storing-Spends user phone code
  advance-Spends (texting x user phone code) = ground (arith, message_code_send_lem S w code phone)
  advance-Spends (committing code name) = committing-Spends code name
  advance-Spends (confirming info) = ground arith
  advance-Spends (replying status payload) = ground arith
  advance-Spends returned = ground arith
  advance-Spends panicked = ground arith
