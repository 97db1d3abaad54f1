-- ===== src/Web/Concurrent/Races.antt =====
-- What goes wrong where the stages of two requests interleave.
use koko.Base.{
  ℕ, ◌≡◌, ◌≢◌, ◌∙◌, sym, Bool-cases, ap, refl, List, [], ◌∷◌, some, inl, inr, false, arith,
  if◌then◌else◌,
}
use koko.Go.Text.{Text}
use koko.Web.Errmsg.{success}
use koko.Web.World.{User, Event, History, Services, Pool, App, Result, ok}
use koko.Web.Model.Message.Sending.{message_code_send_lem, message_code_vertified_lem, send_status}
use koko.Web.Model.Redis.Calls.{message_code_save_lem, save_status, save_calls, after}
use koko.Web.Model.User.{check_user, add_user}
use koko.Web.Api.{Body, bind_user, should_bind_json}
use koko.Web.Api.Registration.{
  name, bound, found_id, checked, drawn, drawn_code, stored, stored_status, message_calls,
}
use koko.Web.Router.Safety.{HasCode}
use koko.Web.Concurrent.{
  Stage, binding, checking, returned, preparing, saving, sending, adding, stage_of, Request,
  arrived_to_add, advance, interleave,
}

module _ (S : Services) (w : App) where
  -- The state with more calls.
  abbrev pub with_calls : History → App
  with_calls h = record w { calls = h }

  pub advance_binding :
      (b : Body)
      → advance S (binding b) w ≡ (ok (if b.fails then returned else checking), bound S b w)
  unfolding advance should_bind_json
  advance_binding b = refl

  pub advance_checking :
      S.id_of w.calls w.global_user.username ≡ 0
      → advance S checking w
        ≡ (ok preparing, with_calls (Event.first_user_id w.global_user.username ∷ w.calls))
  unfolding advance check_user
  advance_checking free = ground arith

  pub advance_preparing :
      advance S preparing w ≡ (ok (saving (drawn_code S w) w.global_user.phone), drawn S w)
  unfolding advance
  advance_preparing = ground (arith, message_code_vertified_lem S w)

  pub advance_saving :
      (code phone : Text) {p : Pool}
      → w.pool ≡ some p
      → save_status S code w.global_user.username w ≡ success
      → advance S (saving code phone) w
        ≡ (ok (sending success code phone), after (save_calls code w.global_user.username w) p w)
  unfolding advance
  advance_saving code phone {p} ready kept =
      ground (arith, message_code_save_lem S w code w.global_user.username p ready)

  pub advance_sending :
      (code phone : Text)
      → advance S (sending success code phone) w ≡ (
        ok (adding success (send_status S w code phone)),
        with_calls (message_calls S w code phone),
      )
  unfolding advance
  advance_sending code phone = ground (arith, message_code_send_lem S w code phone)

  pub advance_adding :
      (x a : ℕ)
      → (s : Stage) × (u : User) × (advance S (adding x a) w
          ≡ (ok s, record w { global_user = u; calls = Event.create_user w.global_user ∷ w.calls }))
  unfolding advance add_user
  advance_adding x a = (_, _, refl)

-- The calls around a message store no code.
HasCode-message_calls :
    (S : Services) (w : App) (code phone n : Text)
    → HasCode n (message_calls S w code phone)
    → HasCode n w.calls
HasCode-message_calls S w code phone n has = elim (Bool-cases (S.client_fails w.calls)) [
  | inl e ↦ rw e at has
  | inr e ↦ rw e at has
]

pub nobody_left : (S : Services) (qs : List Request) (w : App) → interleave S [] qs w ≡ (qs, w)
unfolding interleave
nobody_left S qs w = refl

-- A turn of the first request, and of the second.
module _ (S : Services) (schedule : List ℕ) (w : App) {r : Result Stage} {v : App}
    (q q' : Request) where
  pub first_turn :
      advance S q.stage (record w { written = q.written }) ≡ (r, v)
      → interleave S (0 ∷ schedule) (q ∷ q' ∷ []) w
        ≡ interleave S schedule
            (record { stage = stage_of r; written = v.written } ∷ q' ∷ [])
            (record v { written = w.written })
  unfolding interleave
  first_turn e = rw e refl

  pub second_turn :
      advance S q'.stage (record w { written = q'.written }) ≡ (r, v)
      → interleave S (1 ∷ schedule) (q ∷ q' ∷ []) w
        ≡ interleave S schedule
            (q ∷ record { stage = stage_of r; written = v.written } ∷ [])
            (record v { written = w.written })
  unfolding interleave
  second_turn e = rw e refl

-- The first request stores its code, the second one arrives, and the first goes on.
abbrev pub race : List ℕ
race = 0 ∷ 0 ∷ 0 ∷ 0 ∷ 1 ∷ 0 ∷ 0 ∷ []

module _ (S : Services) (a b : Body) (w : App) {p : Pool} (ready : w.pool ≡ some p)
    (good : a.fails ≡ false) (free : found_id S a w ≡ 0)
    (kept_code : stored_status S (checked S a w) ≡ success) where
  abbrev phone : Text
  phone = (bind_user a w.global_user).phone

  abbrev code : Text
  code = drawn_code S (checked S a w)

  -- The state without the answers of other requests.
  abbrev silent : App → App
  silent v = record v { written = [] }

  raced :
      (interleave S race (arrived_to_add a ∷ arrived_to_add b ∷ []) w).1.calls
      ≡ Event.create_user (bind_user b (bind_user a w.global_user))
        ∷ message_calls S (stored S (checked S a w) p) code phone
  raced =
      let v1 : App = checked S a w in
      let v2 : App = bound S b (stored S v1 p) in
      let (s, u, added) =
        advance_adding S (silent (with_calls S v2 (message_calls S v2 code phone))) _ _ in
      ap (λ r. r.1.calls)
        (first_turn S _ w _ _ (
            advance_binding S (silent w) a
            ∙ ap (λ f. (ok (if f then returned else checking), bound S a (silent w))) good)
          ∙ first_turn S _ (bound S a w) _ _ (advance_checking S (silent (bound S a w)) free)
          ∙ first_turn S _ v1 _ _ (advance_preparing S (silent v1))
          ∙ first_turn S _ (drawn S v1) _ _
              (advance_saving S (silent (drawn S v1)) code phone ready kept_code)
          ∙ second_turn S _ (stored S v1 p) _ _ (advance_binding S (silent (stored S v1 p)) b)
          ∙ first_turn S _ v2 _ _ (advance_sending S (silent v2) code phone)
          ∙ first_turn S _ (with_calls S v2 (message_calls S v2 code phone)) _ _ added
          ∙ nobody_left S _ _)

  -- With a Redis pool, two requests to add a user, the first of which decodes and asks for a free
  -- name whose code is stored, the second for another name that never had a code stored: where the
  -- body of the second arrives before the first goes on, the first adds a user under the name in
  -- the second body, still without a code stored for it.
  pub interleaved_unvetted :
      (n : Text)
      → b.username ≡ some n
      → n ≢ name S a w
      → ¬ HasCode n w.calls
      → let v = (interleave S race (arrived_to_add a ∷ arrived_to_add b ∷ []) w).1 in
        (u : User) × (older : History) × (v.calls ≡ Event.create_user u ∷ older)
        × (u.username ≡ n)
        × ¬ HasCode n older
  unfolding bind_user
  interleaved_unvetted n named other never = (
    _,
    _,
    raced,
    cc,
    λ has. elim (HasCode-message_calls S (stored S (checked S a w) p) code phone n has) [
      | inl stored_for ↦ other (sym stored_for)
      | inr before ↦ never before
    ],
  )
