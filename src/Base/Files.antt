-- ===== src/Base/Files.antt =====
-- One directory of the file system, and the calls of `std::fs` that the program makes in it. Each
-- call is given whether the system lets it succeed.
use mathlib.Core.Bool.{Bool, true, false}
use mathlib.Core.Option.{Option, none, some}
use mathlib.Core.List.{[]}
use mathlib.Core.Path.{◌≡◌, refl, sym}
use garwarp.Base.Outcome.{some_injective}
use garwarp.Base.Tests.{if◌then◌else◌}
use garwarp.Base.Str.{Text}
use garwarp.Base.Map.{Map, get, insert, remove, contains_key}

-- What stands in a file: text, or bytes that are not UTF-8.
pub data File : Type 0 where
  text : Text → File
  binary : File

-- The files by their names.
abbrev pub Directory : Type 0
Directory = Map File

-- `OpenOptions::create_new`: none for an error, also if there is such a file.
unfoldable pub create_new : Bool → Text → Directory → Option Directory
create_new allowed name d =
    if allowed then (if contains_key name d then none else some (insert name (text []) d)) else none

moved : Text → Text → Directory → Option File → Option Directory
moved from to d none = none
moved from to d (some file) = some (insert to file (remove from d))

-- `fs::rename` within the directory: none for an error, also if there is no such file.
unfoldable pub rename : Bool → Text → Text → Directory → Option Directory
unfolding moved
rename allowed from to d = if allowed then moved from to d (get from d) else none

-- The file is at the new name, and the old name is free.
pub rename-some :
    (allowed : Bool) (from to : Text) (d : Directory) {d' : Directory}
    → rename allowed from to d ≡ some d'
    → (file : File) × (get from d ≡ some file) × (d' ≡ insert to file (remove from d))
unfolding rename
rename-some true from to d = found (get from d)
  where
    found :
        (o : Option File) {d' : Directory}
        → moved from to d o ≡ some d'
        → (file : File) × (o ≡ some file) × (d' ≡ insert to file (remove from d))
    found none e = absurd (cc e)
    found (some file) e = (file, refl, sym (some_injective e))
rename-some false from to d = λ e. absurd (cc e)

-- An allowed rename of a file that is there.
pub rename-there :
    (from to : Text) (d : Directory) (file : File)
    → get from d ≡ some file
    → rename true from to d ≡ some (insert to file (remove from d))
unfolding rename moved
rename-there from to d file e = rw e refl
