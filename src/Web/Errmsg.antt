-- ===== src/Web/Errmsg.antt =====
-- go-web/utils/errmsg/errmsg.go: the status codes and their messages.
pub mod Messages
use koko.Base.{ℕ, List, [], ◌∷◌, if◌then◌else◌, ◌==◌}
use koko.Go.Text.{Text, bytes}

abbrev pub success : ℕ
success = 200

abbrev pub revise_success : ℕ
revise_success = 201

abbrev pub error : ℕ
error = 500

abbrev pub check_success : ℕ
check_success = 202

abbrev pub user_not_exist : ℕ
user_not_exist = 300

abbrev pub password_wrong : ℕ
password_wrong = 301

abbrev pub user_exist : ℕ
user_exist = 302

abbrev pub err_token_not_exist : ℕ
err_token_not_exist = 303

abbrev pub err_token_runtime : ℕ
err_token_runtime = 304

abbrev pub err_token_wrong : ℕ
err_token_wrong = 305

abbrev pub err_token_type_wrong : ℕ
err_token_type_wrong = 306

abbrev pub mysql_connect_failed : ℕ
mysql_connect_failed = 307

abbrev pub redis_connect_error : ℕ
redis_connect_error = 308

abbrev pub redis_error_save : ℕ
redis_error_save = 309

abbrev pub aliyun_message_error_send : ℕ
aliyun_message_error_send = 310

abbrev pub business_limit_control : ℕ
business_limit_control = 311

-- The constants of the package, in its order.
abbrev pub declared_codes : List ℕ
declared_codes =
    success ∷ revise_success ∷ error ∷ check_success ∷ user_not_exist ∷ password_wrong ∷ user_exist
    ∷ err_token_not_exist ∷ err_token_runtime ∷ err_token_wrong ∷ err_token_type_wrong
    ∷ mysql_connect_failed ∷ redis_connect_error ∷ redis_error_save ∷ aliyun_message_error_send
    ∷ business_limit_control ∷ []

-- `codeMsg`, the map literal.
unfoldable pub code_msg : List (ℕ × Text)
code_msg =
    (success, bytes "登录成功，Login Successful")
    ∷ (error, bytes "登录失败，Login failed")
    ∷ (check_success, bytes "验证成功")
    ∷ (revise_success, bytes "密码重置成功")
    ∷ (mysql_connect_failed, bytes "mysql连接不可用")
    ∷ (redis_connect_error, bytes "redis连接不可用")
    ∷ (user_not_exist, bytes "用户名不存在，请重新输入")
    ∷ (password_wrong, bytes "密码错误，请重新输入")
    ∷ (user_exist, bytes "用户名已被使用， 请重新输入")
    ∷ (err_token_not_exist, bytes "验证码不存在，请重新输入")
    ∷ (err_token_runtime, bytes "验证码已失效，请重新发送验证码")
    ∷ (err_token_wrong, bytes "验证码错误，请重新输入")
    ∷ (err_token_type_wrong, bytes "验证码类型错误，请重新输入")
    ∷ (redis_error_save, bytes "验证码存储失败")
    ∷ (aliyun_message_error_send, bytes "验证码发送错误")
    ∷ (business_limit_control, bytes "BUSINESS_LIMIT_CONTROL")
    ∷ []

-- A read of a Go map of strings: a missing key gives the empty string.
unfoldable pub read_map : List (ℕ × Text) → ℕ → Text
read_map [] k = []
read_map ((j, v) ∷ m) k = if j == k then v else read_map m k

-- `GetErr`
unfoldable pub get_err : ℕ → Text
unfolding code_msg read_map
get_err code = read_map code_msg code
