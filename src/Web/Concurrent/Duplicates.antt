-- ===== src/Web/Concurrent/Duplicates.antt =====
-- Two requests to add one user, both of which look the name up before either adds it.
use mathlib.Core.Path.{subst}
use koko.Base.{
  ◌+◌, ℕ, ◌≡◌, ◌∙◌, sym, Bool-cases, ap, refl, List, [], ◌∷◌, some, inl, inr, false, arith,
  if◌then◌else◌,
}
use koko.Go.Text.{Text}
use koko.Web.Errmsg.{success}
use koko.Web.World.{User, Command, auth, set, Event, History, Services, Pool, App, ok}
use koko.Web.Model.Message.Sending.{send_status}
use koko.Web.Model.Redis.Calls.{save_status}
use koko.Web.Model.User.{add_user}
use koko.Web.Api.{Body, bind_user}
use koko.Web.Api.Registration.{bound, checked, drawn, drawn_code, stored, message_calls}
use koko.Web.Router.Unique.{HasUser, AreDistinct}
use koko.Web.Concurrent.{
  Stage, binding, checking, returned, preparing, adding, Request, arrived_to_add, advance,
  interleave,
}
use koko.Web.Concurrent.Races.{
  with_calls, advance_binding, advance_checking, advance_preparing, advance_saving, advance_sending,
  nobody_left, first_turn, second_turn,
}

-- Both requests look the name up, then one goes on to its row, and then the other.
abbrev pub twice : List ℕ
twice = 0 ∷ 0 ∷ 1 ∷ 1 ∷ 0 ∷ 0 ∷ 0 ∷ 0 ∷ 1 ∷ 1 ∷ 1 ∷ 1 ∷ []

module _ (S : Services) (w : App) {p : Pool} (ready : w.pool ≡ some p)
    (stores : (h : History) (c : Command) → (S.reply h c).1 ≡ false) where
  abbrev silent : App → App
  silent v = record v { written = [] }

  -- The calls of a request for a free name behind its lookup.
  abbrev row : App
  row =
      with_calls S (stored S w p)
        (message_calls S (stored S w p) (drawn_code S w) w.global_user.phone)

  abbrev code : Text
  code = drawn_code S w

  code_kept : (v : App) (c n : Text) → save_status S c n v ≡ success
  code_kept v c n =
      ground (arith, stores (Event.redis_do (auth v.settings.redis_passwd) ∷ v.calls) (set n c 120))

  -- The state when the row is asked for.
  abbrev added : App
  added = record row {
    global_user = (S.create row.calls w.global_user).0;
    calls = Event.create_user w.global_user ∷ row.calls;
  }

  advance-row :
      (x a : ℕ) → (s : Stage) × (advance S (adding x a) (silent row) ≡ (ok s, silent added))
  unfolding advance add_user
  advance-row x a = (_, refl)

  -- Its four turns, as the first and as the second request.
  four_first :
      (schedule : List ℕ) (q' : Request)
      → (s : Stage) × (interleave S
            (0 ∷ 0 ∷ 0 ∷ 0 ∷ schedule)
            (record { stage = preparing; written = [] } ∷ q' ∷ [])
            w
          ≡ interleave S schedule (record { stage = s; written = [] } ∷ q' ∷ []) added)
  four_first schedule q' =
      let (s, e) =
        advance-row success (send_status S (silent (stored S w p)) code w.global_user.phone) in
      (
        s,
        first_turn S _ w _ _ (advance_preparing S (silent w))
            ∙ first_turn S _ (drawn S w) _ _ (
                advance_saving S (silent (drawn S w)) code w.global_user.phone ready
                  (code_kept (silent (drawn S w)) code w.global_user.username))
            ∙ first_turn S _ (stored S w p) _ _
                (advance_sending S (silent (stored S w p)) code w.global_user.phone)
            ∙ first_turn S _ row _ _ e,
      )

  four_second :
      (schedule : List ℕ) (q : Request)
      → (s : Stage) × (interleave S
            (1 ∷ 1 ∷ 1 ∷ 1 ∷ schedule)
            (q ∷ record { stage = preparing; written = [] } ∷ [])
            w
          ≡ interleave S schedule (q ∷ record { stage = s; written = [] } ∷ []) added)
  four_second schedule q =
      let (s, e) =
        advance-row success (send_status S (silent (stored S w p)) code w.global_user.phone) in
      (
        s,
        second_turn S _ w _ _ (advance_preparing S (silent w))
            ∙ second_turn S _ (drawn S w) _ _ (
                advance_saving S (silent (drawn S w)) code w.global_user.phone ready
                  (code_kept (silent (drawn S w)) code w.global_user.username))
            ∙ second_turn S _ (stored S w p) _ _
                (advance_sending S (silent (stored S w p)) code w.global_user.phone)
            ∙ second_turn S _ row _ _ e,
      )

HasUser-message_calls :
    (S : Services) (w : App) (code phone n : Text)
    → HasUser n w.calls
    → HasUser n (message_calls S w code phone)
HasUser-message_calls S w code phone n has = elim (Bool-cases (S.client_fails w.calls)) [
  | inl e ↦ rw e has
  | inr e ↦ rw e has
]

module _ (S : Services) (a : Body) (w : App) {p : Pool} (ready : w.pool ≡ some p)
    (stores : (h : History) (c : Command) → (S.reply h c).1 ≡ false)
    (keeps_name : (h : History) (u : User) → (S.create h u).0.username ≡ u.username)
    (good : a.fails ≡ false) (n : Text) (named : a.username ≡ some n)
    (free : (h : History) → ¬ HasUser n h → S.id_of h n ≡ 0) (new : ¬ HasUser n w.calls) where
  abbrev both_bound : App
  both_bound = bound S a (checked S a w)

  abbrev both_checked : App
  both_checked = checked S a (checked S a w)

  decodes : (v : App) → advance S (binding a) v ≡ (ok checking, bound S a v)
  decodes v =
      advance_binding S v a ∙ (λ i. (ok (if good i then returned else checking), bound S a v))

  named_by : (u : User) → (bind_user a u).username ≡ n
  unfolding bind_user
  named_by u = ground (arith, named)

  is_free : (h : History) (u : User) → ¬ HasUser n h → S.id_of h (bind_user a u).username ≡ 0
  is_free h u absent = ap (S.id_of h) (named_by u) ∙ free h absent

  looked_up :
      (schedule : List ℕ)
      → interleave S (0 ∷ 0 ∷ 1 ∷ 1 ∷ schedule) (arrived_to_add a ∷ arrived_to_add a ∷ []) w
        ≡ interleave S schedule
            (record { stage = preparing; written = [] }
              ∷ record { stage = preparing; written = [] }
              ∷ [])
            both_checked
  looked_up schedule =
      first_turn S _ w _ _ (decodes (record w { written = [] }))
      ∙ first_turn S _ (bound S a w) _ _ (
          advance_checking S (record (bound S a w) { written = [] })
            (is_free w.calls w.global_user new))
      ∙ second_turn S _ (checked S a w) _ _ (decodes (record (checked S a w) { written = [] }))
      ∙ second_turn S _ both_bound _ _ (
          advance_checking S (record both_bound { written = [] })
            (is_free both_bound.calls (bind_user a w.global_user) new))

  -- The state when the first row is asked for, and its pool.
  abbrev once_added : App
  once_added = added S both_checked {p = p} ready stores

  abbrev more : Pool
  more = record p { borrowed = p.borrowed + 2 }

  both_added :
      (qs : List Request) × (interleave S twice (arrived_to_add a ∷ arrived_to_add a ∷ []) w
        ≡ (qs, added S once_added {p = more} refl stores))
  both_added =
      let prepared : Request = record { stage = preparing; written = [] } in
      let (s, one) = four_first S both_checked {p = p} ready stores (1 ∷ 1 ∷ 1 ∷ 1 ∷ []) prepared in
      let (s', other) =
        four_second S once_added {p = more} refl stores [] (record { stage = s; written = [] }) in
      (_, looked_up (0 ∷ 0 ∷ 0 ∷ 0 ∷ 1 ∷ 1 ∷ 1 ∷ 1 ∷ []) ∙ one ∙ other ∙ nobody_left S _ _)

  -- With a Redis pool that stores what it is asked to, and a table in which a name is free to a
  -- lookup until a row is asked for under it: two requests to add a user with one body, which has a
  -- name that is new, both look it up before either goes on, and two rows are asked for under it.
  pub interleaved_duplicate :
      ¬ AreDistinct (interleave S twice (arrived_to_add a ∷ arrived_to_add a ∷ []) w).1.calls
  interleaved_duplicate distinct =
      let v : App = once_added in
      (subst (λ (r : List Request × App). AreDistinct r.1.calls) both_added.1 distinct).0 (
        HasUser-message_calls S (stored S v more) (drawn_code S v) v.global_user.phone
          v.global_user.username
          (inl (
            sym (
              keeps_name (row S both_checked {p = p} ready stores).calls
                both_checked.global_user))))
