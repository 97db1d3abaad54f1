-- ===== src/Automation/Command.antt =====
-- Automation-IP-Handle/main.go: the command line.
use koko.Base.{List, [], ◌∷◌, if◌then◌else◌, text_eq}
use koko.Go.Text.{Text, bytes}

-- What `main` runs: `handle.Start`, `handle.Connect`, the usage line, or the panic of `os.Args[1]`.
pub data Command : Type 0 where
  start connect usage panic : Command

-- `args` is `os.Args`.
unfoldable pub main : List Text → Command
main [] = panic
main (program ∷ []) = panic
main (program ∷ v ∷ rest) =
    if text_eq v (bytes "not") then start else if text_eq v (bytes "per") then connect else usage
