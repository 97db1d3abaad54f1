-- ===== src/Web/Setting.antt =====
-- go-web/utils/setting.go: the settings, from a file that gopkg.in/ini.v1 reads.
use koko.Base.{[], Option, none, some}
use koko.Go.Text.{bytes}
use koko.Ini.{IniFile}
use koko.Web.World.{Settings, App, Result, ok, panic}

abbrev pub no_settings : Settings
no_settings = record {
  mode = [];
  http_port = [];
  db = [];
  db_host = [];
  db_port = [];
  db_user = [];
  db_passwd = [];
  db_name = [];
  redis_host = [];
  redis_port = [];
  redis_passwd = [];
  redis_db = [];
  region_id = [];
  access_key_id = [];
  access_key_secret = [];
  sign_name = [];
  template_code = [];
}

unfoldable pub load_server : IniFile → Settings → Settings
load_server file s = record s {
  mode = file (bytes "Server") (bytes "Mode") (bytes "debug");
  http_port = file (bytes "Server") (bytes "HttpPort") (bytes "8080");
}

unfoldable pub load_data : IniFile → Settings → Settings
load_data file s = record s {
  db = file (bytes "Database") (bytes "Db") (bytes "mysql");
  db_host = file (bytes "Database") (bytes "DbHost") (bytes "");
  db_port = file (bytes "Database") (bytes "DbPort") (bytes "");
  db_user = file (bytes "Database") (bytes "DbUser") (bytes "mysql");
  db_passwd = file (bytes "Database") (bytes "DbPasswd") (bytes "");
  db_name = file (bytes "Database") (bytes "DbName") (bytes "gin");
}

unfoldable pub load_redis : IniFile → Settings → Settings
load_redis file s = record s {
  redis_host = file (bytes "Redis") (bytes "Host") (bytes "");
  redis_port = file (bytes "Redis") (bytes "Port") (bytes "");
  redis_passwd = file (bytes "Redis") (bytes "Passwd") (bytes "");
  redis_db = file (bytes "Redis") (bytes "RedisDB") (bytes "0");
}

unfoldable pub load_aliyun : IniFile → Settings → Settings
load_aliyun file s = record s {
  region_id = file (bytes "Aliyun") (bytes "RegionID") (bytes "koko");
  access_key_id = file (bytes "Aliyun") (bytes "AccessKeyID") (bytes "koko");
  access_key_secret = file (bytes "Aliyun") (bytes "AccessKeySecret") (bytes "koko");
  sign_name = file (bytes "Aliyun") (bytes "SignName") (bytes "koko");
  template_code = file (bytes "Aliyun") (bytes "TemplateCode") (bytes "koko");
}

-- `Init`. Where the file cannot be loaded the error is printed, and the first section is asked of
-- a nil file: a panic.
unfoldable pub init : Option IniFile → App → Result (Unit {0}) × App
unfolding load_server load_data load_redis load_aliyun
init none w = (panic, w)
init (some file) w = (
  ok tt,
  record w {
    settings = load_aliyun file (load_redis file (load_data file (load_server file w.settings)));
  },
)
