-- ===== src/Web/Concurrent/Progress.antt =====
-- A request that gets its turns comes to its end, whatever the other requests do between them.
use koko.Base.{
  ℕ, zero, suc, ◌+◌, ◌-◌, ◌≤◌, ◌≡◌, refl, List, [], ◌∷◌, Option, none, some, map, inl, inr, ◌⊎◌,
  ◌==◌, if◌then◌else◌, Option-cases, arith, get_elem?, Bool-cases, ==_iff, true, false,
}
use koko.Web.World.{Services, App}
use koko.Go.Text.{Text, string_of_int}
use koko.Go.Strconv.{atoi}
use koko.Web.Router.{HttpRequest, Handler, find_route, routes}
use koko.Web.Model.Redis.{redis_init}
use koko.Web.Model.Message.{get_user_telephone_number}
use koko.Web.Model.User.{check_user, add_user, get_users, edit_user, del_user}
use koko.Web.Model.Message.Sending.{message_code_send_lem, message_code_vertified_lem}
use koko.Web.Model.Redis.Calls.{
  message_code_save_lem, message_code_save_no_pool, message_code_check_lem,
  message_code_check_no_pool,
}
use koko.Web.Api.{should_bind_json, c_json}
use koko.Web.Concurrent.{
  Stage, binding, checking, preparing, saving, sending, adding, answering, finishing, querying,
  editing, deleting, resetting, phoning, drawing, storing, texting, committing, confirming,
  replying, returned, panicked, first_stage, Request, arrived, stage_of, advance, advance_at,
  interleave,
}

-- The stages before the end.
abbrev stages_left : Stage → ℕ
stages_left (binding _) = 8
stages_left checking = 7
stages_left preparing = 6
stages_left (saving _ _) = 5
stages_left (sending _ _ _) = 4
stages_left (adding _ _) = 3
stages_left (answering _) = 2
stages_left (finishing _) = 1
stages_left (querying _ _) = 2
stages_left (editing _) = 2
stages_left (deleting _) = 2
stages_left (resetting _) = 6
stages_left (phoning _) = 5
stages_left (drawing _ _) = 4
stages_left (storing _ _ _) = 3
stages_left (texting _ _ _ _) = 2
stages_left (committing _ _) = 2
stages_left (confirming _) = 1
stages_left (replying _ _) = 1
stages_left returned = 0
stages_left panicked = 0

module _ (S : Services) (w : App) where
  saving-lt : (code phone : Text) → stages_left (stage_of (advance S (saving code phone) w).0) ≤ 4
  unfolding advance
  saving-lt code phone = elim (Option-cases w.pool) [
    | inl cold ↦ ground (arith, message_code_save_no_pool S w code w.global_user.username cold)
    | inr (p, ready) ↦ ground (arith, message_code_save_lem S w code w.global_user.username p ready)
  ]

  storing-lt :
      (user phone code : Text)
      → stages_left (stage_of (advance S (storing user phone code) w).0) ≤ 2
  unfolding advance
  storing-lt user phone code = elim (Option-cases w.pool) [
    | inl cold ↦ ground (arith, message_code_save_no_pool S w code user cold)
    | inr (p, ready) ↦ ground (arith, message_code_save_lem S w code user p ready)
  ]

  committing-lt :
      (code name : Text) → stages_left (stage_of (advance S (committing code name) w).0) ≤ 1
  unfolding advance
  committing-lt code name =
      let c = string_of_int (atoi code) in
      let n = string_of_int (atoi name) in
      elim (Option-cases w.pool) [
        | inl cold ↦ ground (arith, message_code_check_no_pool S w c n cold)
        | inr (p, ready) ↦ ground (arith, message_code_check_lem S w c n p ready)
      ]

  -- Every stage comes closer to the end.
  advance-le : (s : Stage) → stages_left (stage_of (advance S s w).0) ≤ stages_left s - 1
  unfolding advance should_bind_json check_user add_user get_users edit_user del_user redis_init
      get_user_telephone_number c_json
  advance-le (binding b) = ground arith
  advance-le checking = ground arith
  advance-le preparing = ground (arith, message_code_vertified_lem S w)
  advance-le (saving code phone) = saving-lt code phone
  advance-le (sending x code phone) = ground (arith, message_code_send_lem S w code phone)
  advance-le (adding x a) = ground arith
  advance-le (answering status) = ground arith
  advance-le (finishing status) = ground arith
  advance-le (querying size num) = ground arith
  advance-le (editing name) = ground arith
  advance-le (deleting name) = ground arith
  advance-le (resetting user) = ground arith
  advance-le (phoning user) = ground arith
  advance-le (drawing user phone) = ground (arith, message_code_vertified_lem S w)
  advance-le (storing user phone code) = storing-lt user phone code
  advance-le (texting x user phone code) = ground (arith, message_code_send_lem S w code phone)
  advance-le (committing code name) = committing-lt code name
  advance-le (confirming info) = ground arith
  advance-le (replying status payload) = ground arith
  advance-le returned = ground arith
  advance-le panicked = ground arith

-- The `i`-th request is there, with at most `n` stages before its end.
abbrev Left : ℕ → ℕ → List Request → Type 0
Left i n [] = ⊥
Left zero n (q ∷ qs) = stages_left q.stage ≤ n
Left (suc i) n (q ∷ qs) = Left i n qs

-- The turns of the `i`-th request in a schedule.
abbrev pub turns : ℕ → List ℕ → ℕ
turns i [] = 0
turns i (j ∷ schedule) = if j == i then suc (turns i schedule) else turns i schedule

abbrev pub IsOver : Request → Type 0
IsOver q = (q.stage ≡ returned) ⊎ (q.stage ≡ panicked)

Left-mono : (i n m : ℕ) (qs : List Request) → n ≤ m → Left i n qs → Left i m qs
Left-mono i n m [] le left = left
Left-mono zero n m (q ∷ qs) le left = omega arith
Left-mono (suc i) n m (q ∷ qs) le left = Left-mono i n m qs le left

first_stage-le : (h : Option Handler) (r : HttpRequest) → stages_left (first_stage h r) ≤ 8
unfolding first_stage
first_stage-le none r = omega arith
first_stage-le (some Handler.user_add) r = omega arith
first_stage-le (some Handler.user_query) r = omega arith
first_stage-le (some Handler.user_edit) r = omega arith
first_stage-le (some Handler.user_del) r = omega arith
first_stage-le (some Handler.reset_password) r = omega arith
first_stage-le (some Handler.information_commit) r = omega arith

arrived-Left :
    (rs : List HttpRequest) (i : ℕ) {r : HttpRequest}
    → get_elem? rs i ≡ some r
    → Left i 8 (map arrived rs)
unfolding arrived
arrived-Left [] i e = cc
arrived-Left (r ∷ rs) zero e = first_stage-le (find_route routes r.method r.path) r
arrived-Left (r ∷ rs) (suc i) e = arrived-Left rs i e

no_stage_left : (s : Stage) → stages_left s ≤ 0 → (s ≡ returned) ⊎ (s ≡ panicked)
no_stage_left returned h = inl refl
no_stage_left panicked h = inr refl
no_stage_left _ h = absurd (omega arith)

module _ (S : Services) where
  own_turn :
      (i n : ℕ) (qs : List Request) (w : App) → Left i n qs → Left i (n - 1) (advance_at S i qs w).0
  unfolding advance_at
  own_turn i n [] w left = left
  own_turn zero n (q ∷ qs) w left =
      omega (arith, advance-le S (record w { written = q.written }) q.stage)
  own_turn (suc i) n (q ∷ qs) w left = own_turn i n qs w left

  equal_turn :
      (i j n : ℕ) (qs : List Request) (w : App)
      → (j == i) ≡ true
      → Left i n qs
      → Left i (n - 1) (advance_at S j qs w).0
  equal_turn i j n qs w own left = rw ((==_iff j i).0 own) (own_turn i n qs w left)

  others_turn :
      (i j n : ℕ) (qs : List Request) (w : App)
      → (j == i) ≡ false
      → Left i n qs
      → Left i n (advance_at S j qs w).0
  unfolding advance_at
  others_turn i j n [] w other left = left
  others_turn zero zero n (q ∷ qs) w other left = cc
  others_turn zero (suc j) n (q ∷ qs) w other left = left
  others_turn (suc i) zero n (q ∷ qs) w other left = left
  others_turn (suc i) (suc j) n (q ∷ qs) w other left = others_turn i j n qs w (ground arith) left

  interleave-Left :
      (schedule : List ℕ) (i n m : ℕ) (qs : List Request) (w : App)
      → n ≤ m + turns i schedule
      → Left i n qs
      → Left i m (interleave S schedule qs w).0
  unfolding interleave
  interleave-Left [] i n m qs w enough left = Left-mono i n m qs (omega arith) left
  interleave-Left (j ∷ schedule) i n m qs w enough left = elim (Bool-cases (j == i)) [
    | inl own ↦
        interleave-Left schedule i (n - 1) m (advance_at S j qs w).0 (advance_at S j qs w).1
          (ground arith) (equal_turn i j n qs w own left)
    | inr other ↦
        interleave-Left schedule i n m (advance_at S j qs w).0 (advance_at S j qs w).1
          (ground arith) (others_turn i j n qs w other left)
  ]

Left-IsOver :
    (i : ℕ) (qs : List Request) → Left i 0 qs → (q : Request) × (get_elem? qs i ≡ some q) × IsOver q
Left-IsOver i [] left = absurd left
Left-IsOver zero (q ∷ qs) left = (q, refl, no_stage_left q.stage left)
Left-IsOver (suc i) (q ∷ qs) left = Left-IsOver i qs left

-- However the stages of any requests interleave, a request that gets eight turns has come to its
-- end: its handler has returned or panicked.
pub interleave-ends :
    (S : Services) (schedule : List ℕ) (rs : List HttpRequest) (w : App) (i : ℕ) {r : HttpRequest}
    → get_elem? rs i ≡ some r
    → 8 ≤ turns i schedule
    → (q : Request) × (get_elem? (interleave S schedule (map arrived rs) w).0 i ≡ some q) × IsOver q
interleave-ends S schedule rs w i there enough =
    Left-IsOver i _
      (interleave-Left S schedule i 8 0 (map arrived rs) w (omega arith) (arrived-Left rs i there))
