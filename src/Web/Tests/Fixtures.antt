-- ===== src/Web/Tests/Fixtures.antt =====
-- Services that work and that fail, states of the server, and bodies of requests.
use koko.Base.{[], none, some, Bool, true, false}
use koko.Go.Text.{bytes}
use koko.Web.World.{
  User, no_user, SmsResponse, Command, get, Reply, nil, byte_slice, Services, Pool, App,
}
use koko.Web.Setting.{no_settings}
use koko.Web.Api.{Body}

abbrev pub accepted : SmsResponse
accepted = record {
  request_id = bytes "r1";
  message = bytes "OK";
  biz_id = bytes "b1";
  code = bytes "OK";
}

abbrev pub replies : Command → Reply × Bool
replies (get k) = (byte_slice (bytes "000042"), false)
replies _ = (Reply.string (bytes "OK"), false)

-- Everything works, no name is in use, and a code is stored for every name.
abbrev pub services : Services
services = record {
  intn = λ h n. 42;
  reply = λ h c. replies c;
  client_fails = λ h. false;
  sms = λ h r. (accepted, false);
  id_of = λ h n. 0;
  phone_of = λ h n. bytes "13900000000";
  users_of = λ h l o. ([], none);
  create = λ h u. (record u { id = 7 }, false);
  message_fails = λ h m. false;
}

-- Redis refuses every command.
abbrev pub no_redis : Services
no_redis = record services { reply = λ h c. (nil, true) }

-- Every name is in use.
abbrev pub taken : Services
taken = record services { id_of = λ h n. 3 }

abbrev pub cold : App
cold = record {
  global_user = no_user;
  pool = none;
  settings = no_settings;
  calls = [];
  written = [];
}

abbrev pub pool : Pool
pool = record { max_idle = 20; borrowed = 0 }

abbrev pub warm : App
warm = record cold { pool = some pool }

abbrev pub lisi : Body
lisi = record {
  id = none;
  username = some (bytes "lisi");
  password = some (bytes "pw");
  address = none;
  phone = some (bytes "13800000000");
  fails = false;
}

-- The state after one registration, whose user has the key 7.
abbrev pub zhangsan : User
zhangsan = record {
  id = 7;
  username = bytes "zhangsan";
  password = bytes "pw";
  address = [];
  phone = bytes "13700000000";
}

abbrev pub used : App
used = record warm { global_user = zhangsan }

abbrev pub no_phone : Body
no_phone = record lisi { phone = none }
