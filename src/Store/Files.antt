-- ===== src/Store/Files.antt =====
-- The files of garwarp/src/request_store.rs: `atomic_write` in the directory of the store, which the
-- temporary file shares with it.
pub mod Atomic
use garwarp.Base.{
  ℕ, Bool, Option, none, some, [], ◌∷◌, ◌++◌, Result, ok, err, Text, codes, if◌then◌else◌,
}
use garwarp.Base.Digits.{show_radix}
use garwarp.Base.Map.{insert}
use garwarp.Base.Files.{File, text, Directory, create_new, rename}
use garwarp.Request.{RequestRegistry}
use garwarp.Store.{store_text}

-- `io::Error` of a system call.
pub data IoError : Type 0 where
  os_error : IoError

-- What the system gives to one `atomic_write`: the id of the process and the clock, whether each of
-- its calls succeeds, and what a failed write leaves in the temporary file.
pub record Writing : Type 0 where
  pub pid : ℕ
  pub nanos : ℕ
  pub made_directory : Bool
  pub created : Bool
  pub permitted : Bool
  pub torn : Option File
  pub synced : Bool
  pub renamed : Bool

-- `unique_temp_path`, in the directory of the store.
unfoldable pub unique_temp_name : Text → Writing → Text
unique_temp_name file_name w =
    b'.' ∷ (file_name ++ (codes ".tmp-" ++ (show_radix 10 w.pid ++ (b'-' ∷ show_radix 10 w.nanos))))

abbrev Written : Type 0
Written = Directory × Result IoError (Unit {0})

-- The end of `atomic_write`, on the result of `fs::rename`.
replaced : Directory → Option Directory → Written
replaced d none = (d, err os_error)
replaced d (some d') = (d', ok tt)

-- `write_all`, on what it leaves if it fails, `sync_all` and what follows.
fill : Writing → Text → Text → Text → Directory → Option File → Written
unfolding replaced
fill w temp name contents d (some file) = (insert temp file d, err os_error)
fill w temp name contents d none =
    let d' = insert temp (text contents) d in
    if w.synced then replaced d' (rename w.renamed temp name d') else (d', err os_error)

-- What follows the creation of the temporary file.
after_create : Writing → Text → Text → Text → Directory → Option Directory → Written
unfolding fill
after_create w temp name contents d none = (d, err os_error)
after_create w temp name contents d (some d') =
    if w.permitted then fill w temp name contents d' w.torn else (d', err os_error)

unfoldable pub atomic_write : Writing → Text → Text → Directory → Written
unfolding after_create
atomic_write w name contents d =
    let temp = unique_temp_name name w in
    if w.made_directory
    then after_create w temp name contents d (create_new w.created temp d)
    else (d, err os_error)

unfoldable pub persist_registry : Writing → Text → RequestRegistry → Directory → Written
persist_registry w name r d = atomic_write w name (store_text r) d
