-- ===== src/Cli.antt =====
-- src/cli.rs: the arguments, and the expansion of a bare port.
pub mod Args
pub mod LogLevel
use oxiduct.Base.{ℕ, Bool, ◌++◌, Option, none, some}
use oxiduct.Text.{Text, codes, parse_u16}

unfoldable pub expand_listen : Text → Text
expand_listen s = elim (parse_u16 s) [ some port ↦ codes "0.0.0.0:" ++ s | none ↦ s ]
