-- ===== src/Automation/Sequential.antt =====
-- Automation-IP-Handle/ip-permission-revice-2.go: the updates without a goroutine. Its functions are
-- those of iph/ip-permission.go, statement for statement, but for a print of the settings; its
-- `main` calls none of them.
pub mod Goroutine
use koko.Base.{List, Option}
use koko.Go.Text.{Text}
use koko.Ini.{IniFile}
use koko.Automation.Permission.{Config, Database, P, done}
use koko.Automation.Permission

-- `Get_DB`
unfoldable pub get_db : Option IniFile → P Config
unfolding Permission.get_db
get_db file = Permission.get_db file

module _ (D : Database) where
  -- `Update`
  unfoldable pub update : Text → P (Unit {0})
  update ho = Permission.update D ho

  -- `Get_IP`
  unfoldable pub get_ip : Option Text → P (Unit {0})
  get_ip content = Permission.get_ip D content

  -- `Connect`
  unfoldable pub connect : Option IniFile → Option Text → P (Unit {0})
  connect file content = Permission.connect D file content

-- `main` has an empty body.
unfoldable pub main : P (Unit {0})
main w = (done tt, w)
