-- ===== src/Ini.antt =====
-- gopkg.in/ini.v1, which reads the settings of go-web and of Automation-IP-Handle. It is third-party
-- code: a file is what `file.Section(section).Key(key).MustString(default)` gives.
use koko.Base.{◌≡◌, [], if◌then◌else◌, text_eq}
use koko.Go.Text.{Text}

abbrev pub IniFile : Type 0
IniFile = Text → Text → Text → Text

-- `MustString`, as documented: the value, or the default where the value is missing or empty.
abbrev pub IsMustString : IniFile → (Text → Text → Text) → Type 0
IsMustString file value =
    (s k d : Text) → file s k d ≡ (if text_eq (value s k) [] then d else value s k)
