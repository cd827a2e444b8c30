-- ===== src/Aifs.antt =====
-- aifs/cli/aifs.py: the command line of the AIFS daemon. `json`, `datetime`, the terminal and the
-- sockets are interfaces; what is printed is the second part of the state.
mod Request
mod Commands
pub mod Consent
pub mod Balance
pub use Request.{Cli, AifsState, Output, out, err, socket_path}
unfoldable pub use Request.{
  print, die, send, require_ok, get_of, subscript, fmt_time, converse, exchange, socket_error,
}
unfoldable pub use Commands.{
  cmd_create, cmd_delete, cmd_list, cmd_snap, cmd_snaps, cmd_restore, cmd_rmsnap, cmd_help,
  commands, dispatch, run, refuses, print_paths, list_items,
}
