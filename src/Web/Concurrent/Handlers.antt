-- ===== src/Web/Concurrent/Handlers.antt =====
-- The stages of every handler in their order are the handler.
use koko.Base.{
  ℕ, zero, suc, ◌≡◌, refl, ◌∙◌, Option, some, none, Option-cases, inl, inr, arith, if◌then◌else◌,
  ◌==◌, ==_iff, ◌∷◌, Bool-cases,
}
use koko.Go.Text.{Text, string_of_int}
use koko.Go.Strconv.{atoi}
use koko.Web.Errmsg.{success, get_err}
use koko.Web.World.{Payload, Event, Services, Pool, App, Result, ok, panic}
use koko.Web.Model.Redis.{redis_init}
use koko.Web.Model.Redis.Calls.{
  message_code_save_lem, save_status, save_calls, message_code_check_lem,
  message_code_check_no_pool, check_calls, after,
}
use koko.Web.Model.Message.{get_user_telephone_number}
use koko.Web.Model.Message.Sending.{message_code_send_lem, message_code_vertified_lem, send_status}
use koko.Web.Model.User.{check_user, edit_user, del_user}
use koko.Web.Api.{
  user_query, user_edit, user_del, reset_password, information_commit, c_json, error_unless,
}
use koko.Web.Api.Registration.{answered, drawn, drawn_code, message_calls}
use koko.Web.Api.Users.{user_query_lem}
use koko.Web.Api.Passwords.{
  fresh_pool, reset_code, reset_stored, reset_phone, reset_saved, reset_password_lem, commit_name,
  commit_status, information_commit_lem, information_commit_no_pool,
}
use koko.Web.Router.{HttpRequest, Handler, find_route, routes, dispatch}
use koko.Web.Concurrent.{
  Stage, querying, editing, deleting, resetting, phoning, drawing, storing, texting, committing,
  confirming, replying, returned, panicked, first_stage, arrived, stage_of, advance, alone,
}
use koko.Web.Concurrent.Stages.{ended, alone-eq-user_add}

module _ (S : Services) where
  -- One stage, and the rest.
  alone_next :
      (n : ℕ) (s : Stage) (w : App) {r : Result Stage} {v : App}
      → advance S s w ≡ (r, v)
      → alone S (suc n) s w ≡ alone S n (stage_of r) v
  unfolding alone
  alone_next n s w e = rw e refl

  alone_returned : (n : ℕ) (w : App) → alone S n returned w ≡ (returned, w)
  unfolding alone advance
  alone_returned zero w = refl
  alone_returned (suc n) w = alone_returned n w

  alone_panicked : (n : ℕ) (w : App) → alone S n panicked w ≡ (panicked, w)
  unfolding alone advance
  alone_panicked zero w = refl
  alone_panicked (suc n) w = alone_panicked n w

  advance_confirming :
      (info : ℕ) (w : App) → advance S (confirming info) w ≡ (ok returned, answered info w)
  unfolding advance c_json
  advance_confirming info w = refl

  advance_committing :
      (code name : Text) (w : App) {p : Pool}
      → w.pool ≡ some p
      → advance S (committing code name) w ≡ (
        ok (confirming (commit_status S code name w)),
        after (check_calls (commit_name S code name w) w) p w,
      )
  unfolding advance edit_user
  advance_committing code name w {p} ready = ground (
    arith,
    message_code_check_lem S w (string_of_int (atoi code)) (string_of_int (atoi name)) p ready,
  )

  advance_committing_cold :
      (code name : Text) (w : App) → w.pool ≡ none → advance S (committing code name) w ≡ (panic, w)
  unfolding advance
  advance_committing_cold code name w cold = ground (
    arith,
    message_code_check_no_pool S w (string_of_int (atoi code)) (string_of_int (atoi name)) cold,
  )

  alone_committing :
      (code name : Text) (w : App)
      → alone S 8 (committing code name) w
        ≡ (ended (information_commit S code name w).0, (information_commit S code name w).1)
  alone_committing code name w = elim (Option-cases w.pool) [
    | inl cold ↦
        rw (information_commit_no_pool S code name w cold)
          (alone_next 7 _ w (advance_committing_cold code name w cold) ∙ alone_panicked 7 w)
    | inr (p, ready) ↦ rw (information_commit_lem S code name w ready) (
        alone_next 7 _ w (advance_committing code name w ready)
        ∙ alone_next 6 _ _ (advance_confirming _ _)
        ∙ alone_returned 6 _)
  ]

  advance_replying :
      (status : ℕ) (payload : Payload) (w : App)
      → advance S (replying status payload) w ≡ (
        ok returned,
        record w {
          written =
              record { status = status; payload = payload; massage = get_err status } ∷ w.written;
        },
      )
  unfolding advance c_json
  advance_replying status payload w = refl

  advance_drawing :
      (user phone : Text) (w : App)
      → advance S (drawing user phone) w ≡ (ok (storing user phone (drawn_code S w)), drawn S w)
  unfolding advance
  advance_drawing user phone w = ground (arith, message_code_vertified_lem S w)

  advance_storing :
      (user phone code : Text) (w : App) {p : Pool}
      → w.pool ≡ some p
      → advance S (storing user phone code) w ≡ (
        ok (
            if save_status S code user w == success
            then texting (save_status S code user w) user phone code
            else replying (save_status S code user w) (Payload.string user)),
        after (save_calls code user w) p w,
      )
  unfolding advance
  advance_storing user phone code w {p} ready =
      ground (arith, message_code_save_lem S w code user p ready)

  advance_texting :
      (x : ℕ) (user phone code : Text) (w : App)
      → x ≡ success
      → advance S (texting x user phone code) w ≡ (
        ok (
            replying
              (error_unless (send_status S w code phone == success) success)
              (Payload.string user)),
        record w { calls = message_calls S w code phone },
      )
  unfolding advance
  advance_texting x user phone code w kept = ground (arith, message_code_send_lem S w code phone)

  advance_resetting :
      (user : Text) (w : App)
      → advance S (resetting user) w
        ≡ (ok (phoning user), record w { pool = some (fresh_pool S user w) })
  unfolding advance redis_init
  advance_resetting user w = refl

  advance_phoning :
      (user : Text) (w : App)
      → advance S (phoning user) w ≡ (
        ok (drawing user (S.phone_of w.calls user)),
        record w { calls = Event.find_phone user ∷ w.calls },
      )
  unfolding advance get_user_telephone_number
  advance_phoning user w = refl

  -- The first four stages of a reset.
  alone_reset :
      (user : Text) (w : App)
      → alone S 8 (resetting user) w
        ≡ alone S 4
            (if reset_saved S user w == success
              then texting (reset_saved S user w) user (reset_phone S user w) (reset_code S user w)
              else replying (reset_saved S user w) (Payload.string user))
            (reset_stored S user w)
  alone_reset user w =
      alone_next 7 (resetting user) w (advance_resetting user w)
      ∙ alone_next 6 _ _ (advance_phoning user _)
      ∙ alone_next 5 _ _ (advance_drawing user _ _)
      ∙ alone_next 4 _ _ (advance_storing user _ _ _ refl)

  alone_resetting :
      (user : Text) (w : App)
      → alone S 8 (resetting user) w
        ≡ (ended (reset_password S user w).0, (reset_password S user w).1)
  alone_resetting user w = rw (reset_password_lem S user w) (
      alone_reset user w ∙ elim (Bool-cases (reset_saved S user w == success)) [
        | inl saved ↦ rw saved (
            alone_next 3 _ _
              (advance_texting _ user _ _ _ ((==_iff (reset_saved S user w) success).0 saved))
            ∙ alone_next 2 _ _ (advance_replying _ _ _)
            ∙ alone_returned 2 _)
        | inr lost ↦ rw lost (alone_next 3 _ _ (advance_replying _ _ _) ∙ alone_returned 3 _)
      ])

  alone_querying :
      (size num : Text) (w : App)
      → alone S 8 (querying size num) w
        ≡ (ended (user_query S size num w).0, (user_query S size num w).1)
  unfolding alone advance user_query c_json
  alone_querying size num w = ground (arith, user_query_lem S size num w)

  alone_editing :
      (name : Text) (w : App)
      → alone S 8 (editing name) w ≡ (ended (user_edit S name w).0, (user_edit S name w).1)
  unfolding alone advance user_edit check_user edit_user c_json
  alone_editing name w = ground arith

  alone-deleting :
      (name : Text) (w : App)
      → alone S 8 (deleting name) w ≡ (ended (user_del S name w).0, (user_del S name w).1)
  unfolding alone advance user_del check_user del_user c_json
  alone-deleting name w = ground arith

  first_stage-eq-dispatch :
      (h : Option Handler) (r : HttpRequest) (w : App)
      → alone S 8 (first_stage h r) w ≡ (ended (dispatch S h r w).0, (dispatch S h r w).1)
  unfolding first_stage dispatch
  first_stage-eq-dispatch none r w = alone_returned 8 w
  first_stage-eq-dispatch (some Handler.user_add) r w = alone-eq-user_add S r.body w
  first_stage-eq-dispatch (some Handler.user_query) r w = alone_querying _ _ w
  first_stage-eq-dispatch (some Handler.user_edit) r w = alone_editing _ w
  first_stage-eq-dispatch (some Handler.user_del) r w = alone-deleting _ w
  first_stage-eq-dispatch (some Handler.reset_password) r w = alone_resetting _ w
  first_stage-eq-dispatch (some Handler.information_commit) r w = alone_committing _ _ w

  -- A request that has the server for itself is through after eight stages, and has done what the
  -- handler of its route does: the same state and calls, the same answers, and a panic where it
  -- panics. A request without a route does nothing.
  pub alone-eq-dispatch :
      (r : HttpRequest) (w : App)
      → let done = dispatch S (find_route routes r.method r.path) r w in
        alone S 8 (arrived r).stage w ≡ (ended done.0, done.1)
  unfolding arrived
  alone-eq-dispatch r w = first_stage-eq-dispatch (find_route routes r.method r.path) r w
