-- ===== src/Web/Concurrent/Stages.antt =====
-- The stages in their order are the handler.
use koko.Base.{ℕ, suc, some, none, ltb, ◌≡◌, refl, arith, if◌then◌else◌, Option-cases, inl, inr}
use koko.Go.Text.{Text}
use koko.Web.Errmsg.{success, user_exist}
use koko.Web.World.{Services, Pool, App, Result, ok, panic}
use koko.Web.Api.{Body, user_add, should_bind_json, c_json}
use koko.Web.Api.Registration.{
  user_add_lem, user_add_lem_no_pool, found_id, checked, bound, answered, enrolled, stored, drawn,
  drawn_code, added,
}
use koko.Web.Model.User.{check_user, add_user}
use koko.Web.Model.Redis.Calls.{message_code_save_lem, message_code_save_no_pool}
use koko.Web.Model.Message.Sending.{message_code_send_lem, message_code_vertified_lem}
use koko.Web.Concurrent.{
  Stage, binding, preparing, sending, finishing, returned, panicked, advance, alone,
}

-- How a request ends whose handler returns or panics.
abbrev pub ended : {A : Type 0} → Result A → Stage
ended (ok _) = returned
ended panic = panicked

module _ (S : Services) where
  alone_finishing :
      (n rc : ℕ) (w : App) → alone S (suc n) (finishing rc) w ≡ alone S n returned (answered rc w)
  unfolding alone advance c_json
  alone_finishing n rc w = refl

  alone_sending :
      (n : ℕ) (code phone : Text) (w : App)
      → alone S (suc (suc (suc n))) (sending success code phone) w
        ≡ alone S n (finishing success) (added S w code phone)
  unfolding alone advance c_json add_user
  alone_sending n code phone w = ground (arith, message_code_send_lem S w code phone)

  alone_preparing :
      (w : App) {p : Pool}
      → w.pool ≡ some p
      → alone S 6 preparing w ≡ (returned, answered success (enrolled S w p))
  unfolding alone advance c_json
  alone_preparing w {p} ready = ground (
    arith,
    message_code_vertified_lem S w,
    message_code_save_lem S (drawn S w) (drawn_code S w) w.global_user.username p ready,
    alone_sending 1 (drawn_code S w) w.global_user.phone (stored S w p),
  )

  alone_preparing_no_pool :
      (w : App) → w.pool ≡ none → alone S 6 preparing w ≡ (panicked, drawn S w)
  unfolding alone advance
  alone_preparing_no_pool w cold = ground (
    arith,
    message_code_vertified_lem S w,
    message_code_save_no_pool S (drawn S w) (drawn_code S w) w.global_user.username cold,
  )

  module _ (b : Body) (w : App) where
    alone_binding : alone S 8 (binding b) w ≡ (
        if b.fails
        then (returned, bound S b w)
        else if ltb 0 (found_id S b w)
        then (returned, answered user_exist (checked S b w))
        else alone S 6 preparing (checked S b w))
    unfolding alone advance should_bind_json check_user c_json
    alone_binding = ground arith

    -- A request that has the server for itself is through after eight stages, and has done what
    -- `UserAdd` does: the same state and calls, the same answers, and a panic where it panics.
    pub alone-eq-user_add : alone S 8 (binding b) w ≡ (ended (user_add S b w).0, (user_add S b w).1)
    alone-eq-user_add = elim (Option-cases w.pool) [
      | inl cold ↦ ground (
        arith,
        alone_binding,
        user_add_lem_no_pool S b w cold,
        alone_preparing_no_pool (checked S b w) cold,
      )
      | inr (p, ready) ↦
          ground
            (arith, alone_binding, user_add_lem S b w ready, alone_preparing (checked S b w) ready)
    ]
