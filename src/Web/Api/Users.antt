-- ===== src/Web/Api/Users.antt =====
-- `UserQuery`, `UserEdit` and `UserDel`.
use koko.Base.{
  ◌∙◌, ℕ, suc, ◌+◌, ◌*◌, ◌^◌, ◌<◌, ◌≡◌, ◌≢◌, ap, ℤ, pos, [], ◌∷◌, arith, ltb, if◌then◌else◌, length,
}
use koko.Base.Int.{wrap64, wrap64_pos, ◌-ℤ◌, ◌*ℤ◌}
use koko.Go.Text.{Text, string_of_int, length-string_of_int}
use koko.Go.Strconv.{atoi}
use koko.Web.Errmsg.{success, user_exist, get_err}
use koko.Web.World.{Payload, Response, Event, Services, App, ok}
use koko.Web.Model.User.{check_user, page_offset, get_users, users_or_nil, edit_user, del_user}
use koko.Web.Api.{minus_one_for_zero, user_query, user_edit, user_del}

module _ (S : Services) (username : Text) (w : App) where
  -- The name that is looked up: one character.
  abbrev pub looked_name : Text
  looked_name = string_of_int (atoi username)

  -- 302 for a name that is found, and the stubs' 0 for one that is not.
  abbrev pub edit_status : ℕ
  edit_status = if ltb 0 (S.id_of w.calls looked_name) then user_exist else 0

  abbrev pub edit_response : Response
  edit_response = record {
    status = edit_status;
    payload = Payload.int (atoi username);
    massage = get_err edit_status;
  }

  -- `UserEdit` looks one name up and answers; no row is written, and a user that exists is refused.
  pub user_edit_lem : user_edit S username w ≡ (
    ok tt,
    record w {
      calls = Event.first_user_id looked_name ∷ w.calls;
      written = edit_response ∷ w.written;
    },
  )
  unfolding user_edit check_user edit_user
  user_edit_lem = ground arith

  -- `UserDel` does what `UserEdit` does: nothing is deleted.
  pub user_del-eq-user_edit : user_del S username w ≡ user_edit S username w
  unfolding user_del user_edit check_user del_user edit_user
  user_del-eq-user_edit = ground arith

  -- For a user name of more than four bytes `UserEdit` looks up another name, and makes no other
  -- call; where that name is in use the answer is 302, and else 0, which has no message.
  pub user_edit_misses :
      4 < length username
      → (name : Text) × ((user_edit S username w).1.calls ≡ Event.first_user_id name ∷ w.calls)
        × (name ≢ username)
        × ((user_edit S username w).1.written
            ≡ record {
              status = if ltb 0 (S.id_of w.calls name) then user_exist else 0;
              payload = Payload.int (atoi username);
              massage = if ltb 0 (S.id_of w.calls name) then get_err user_exist else [];
            }
              ∷ w.written)
  unfolding get_err
  user_edit_misses long = (
    looked_name,
    ground (arith, user_edit_lem),
    λ e. omega (arith, ap length e, length-string_of_int (atoi username)),
    ground (arith, user_edit_lem),
  )

page_before : (k : ℕ) → pos (suc k) -ℤ pos 1 ≡ pos k
page_before k = ground arith

pos-*ℤ : (k size : ℕ) → pos k *ℤ pos size ≡ pos (k * size)
pos-*ℤ k size = ground arith

page_offset_pos :
    (size k : ℕ)
    → k < 2 ^ 63
    → k * size < 2 ^ 63
    → page_offset (pos size) (pos (suc k)) ≡ pos (k * size)
unfolding page_offset
page_offset_pos size k hk hp =
    ap (λ (z : ℤ). wrap64 (wrap64 z *ℤ pos size)) (page_before k)
    ∙ ap (λ (z : ℤ). wrap64 (z *ℤ pos size)) (wrap64_pos k hk)
    ∙ ap wrap64 (pos-*ℤ k size)
    ∙ wrap64_pos (k * size) hp

-- As long as they fit 64 bits, the pages of a size follow one another without a gap or an overlap,
-- and the first begins at the first row.
pub page_offset_tiles :
    (size k : ℕ)
    → suc k < 2 ^ 63
    → suc k * size < 2 ^ 63
    → (page_offset (pos size) (pos 1) ≡ pos 0)
      × ((first : ℕ) × (page_offset (pos size) (pos (suc k)) ≡ pos first)
          × (page_offset (pos size) (pos (suc (suc k))) ≡ pos (first + size)))
page_offset_tiles size k hk hp =
    let below : k * size < 2 ^ 63 = grind arith in
    (
      page_offset_pos size 0 (omega arith) (omega arith) ∙ ap pos (omega arith),
      (
        k * size,
        page_offset_pos size k (omega arith) below,
        page_offset_pos size (suc k) hk hp ∙ ap pos (omega arith),
      ),
    )

module _ (S : Services) (pagesize pagenum : Text) (w : App) where
  abbrev pub limit : ℤ
  limit = minus_one_for_zero (atoi pagesize)

  abbrev pub offset : ℤ
  offset = page_offset limit (minus_one_for_zero (atoi pagenum))

  -- `UserQuery` makes one query and answers 200, also when the query fails, with nil for its rows.
  pub user_query_lem : user_query S pagesize pagenum w ≡ (
    ok tt,
    record w {
      calls = Event.find_users limit offset ∷ w.calls;
      written =
          record {
            status = success;
            payload = Payload.users (users_or_nil (S.users_of w.calls limit offset));
            massage = get_err success;
          }
          ∷ w.written;
    },
  )
  unfolding user_query get_users
  user_query_lem = ground arith
