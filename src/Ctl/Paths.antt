-- ===== src/Ctl/Paths.antt =====
-- Where garwarpctl/src/main.rs looks for the socket of the daemon.
use garwarp.Base.{Option, none, some, Text, codes, ◌≡◌, refl}
use garwarp.Runtime.{
  default_runtime_subdir, default_control_socket, join_path, temp_dir, RuntimePaths, from_base,
  base_dir, from_env,
}

unfoldable pub runtime_dir : (Text → Option Text) → Text
unfolding temp_dir
runtime_dir var =
    join_path (elim (var (codes "XDG_RUNTIME_DIR")) [ none ↦ temp_dir var | some path ↦ path ])
      default_runtime_subdir

unfoldable pub control_socket_path : (Text → Option Text) → Text
unfolding runtime_dir
control_socket_path var = join_path (runtime_dir var) default_control_socket

-- In the same environment, the client connects to the socket that the daemon binds.
pub control_socket_path-agrees :
    (var : Text → Option Text)
    → control_socket_path var ≡ RuntimePaths.control_socket (from_env var)
unfolding control_socket_path from_env from_base base_dir
control_socket_path-agrees var = refl
