-- ===== src/Config/Main.antt =====
-- `main` of garwarp/src/main.rs, on what `daemon::run` returns, with `Display` of its error.
use garwarp.Base.{ℕ, Option, List, [], ◌∷◌, ◌++◌, Result, ok, err, Text, codes}
use garwarp.Base.Digits.{show_radix}
use garwarp.Ipc.Health.{protocol_version}
use garwarp.Config.{Command, daemon, version, help, parse_command}

pub record Exit : Type 0 where
  pub stdout : List Text
  pub stderr : List Text
  pub code : ℕ

abbrev print_help : List Text
print_help = codes "garwarp <command>" ∷ codes "commands: daemon (default), version, help" ∷ []

-- What is printed, and the result.
abbrev performed : Result Text (Unit {0}) → Command → List Text × Result Text (Unit {0})
performed ran daemon = ([], ran)
performed ran version = ((codes "garwarp protocol v" ++ show_radix 10 protocol_version) ∷ [], ok tt)
performed ran help = (print_help, ok tt)

abbrev finish : List Text × Result Text (Unit {0}) → Exit
finish (lines, ok done) = record { stdout = lines; stderr = []; code = 0 }
finish (lines, err message) = record {
  stdout = lines;
  stderr = (codes "garwarp error: " ++ message) ∷ [];
  code = 1;
}

-- `input` is the first argument behind the name of the program.
unfoldable pub main : Result Text (Unit {0}) → Option Text → Exit
unfolding parse_command
main ran input = finish (performed ran (parse_command input))
