-- ===== src/Runtime.antt =====
-- garwarp/src/runtime.rs: where the daemon keeps its files. A path is its text, and the environment a
-- function from the names of its variables.
use garwarp.Base.{Option, none, some, [], ◌∷◌, Text, codes, ◌==◌, if◌then◌else◌}

-- garwarp-ipc/src/lib.rs
abbrev pub default_runtime_subdir : Text
default_runtime_subdir = codes "garwarp"

abbrev pub default_control_socket : Text
default_control_socket = codes "control.sock"

-- The file names that `from_base` joins to the root.
abbrev pub lock_file_name : Text
lock_file_name = codes "garwarp.lock"

abbrev pub request_store_name : Text
request_store_name = codes "requests.state"

-- `PathBuf::join` with a relative path: a slash in between, unless there is one or nothing before.
unfoldable pub join_path : Text → Text → Text
join_path [] name = name
join_path (c ∷ []) name = if c == b'/' then c ∷ name else c ∷ b'/' ∷ name
join_path (c ∷ d ∷ cs) name = c ∷ join_path (d ∷ cs) name

-- `env::temp_dir`
unfoldable pub temp_dir : (Text → Option Text) → Text
temp_dir var = elim (var (codes "TMPDIR")) [ none ↦ codes "/tmp" | some path ↦ path ]

pub record RuntimePaths : Type 0 where
  pub root : Text
  pub control_socket : Text
  pub lock_file : Text
  pub request_store : Text

unfoldable pub from_base : Text → RuntimePaths
from_base base =
    let root = join_path base default_runtime_subdir in
    record {
      root = root;
      control_socket = join_path root default_control_socket;
      lock_file = join_path root lock_file_name;
      request_store = join_path root request_store_name;
    }

unfoldable pub base_dir : (Text → Option Text) → Text
unfolding temp_dir
base_dir var = elim (var (codes "XDG_RUNTIME_DIR")) [ none ↦ temp_dir var | some path ↦ path ]

unfoldable pub from_env : (Text → Option Text) → RuntimePaths
unfolding from_base base_dir
from_env var = from_base (base_dir var)
