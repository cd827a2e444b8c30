-- ===== src/Aifs/Commands.antt =====
-- The commands and their dispatch.
use ai_m_os.Common.{Bool, not, List, [], ◌∷◌, ◌++◌, Text, codes, Exn, if◌then◌else◌}
use ai_m_os.Common.Str.{text_eq, lower}
use ai_m_os.Common.Action.{M, ◌>>=◌, ◌>>◌, pure, raise, from_result, lift}
use ai_m_os.Json.{Json, str, list, null, end, field, is_true, Items, nil, cons}
use ai_m_os.Aifs.Request.{Cli, AifsState, print, die, send, require_ok, subscript, get_of, fmt_time}

module _ {W F : Type 0} (cli : Cli W F) where
  abbrev Command : Type 0
  Command = List Text → M (AifsState W) (Unit {0})

  -- `input(prompt).lower() != "y"`
  unfoldable pub refuses : Text → M (AifsState W) Bool
  unfolding lower text_eq
  refuses prompt = do
    answer ← lift (cli.input prompt)
    pure (not (text_eq (lower answer) (codes "y")))

  unfoldable pub cmd_create : Command
  unfolding print die send require_ok subscript fmt_time
  cmd_create [] = die (codes "usage: aifs create <path>")
  cmd_create (path ∷ _) = do
    resp ← send cli (codes "create_volume") (field (codes "path") (str path) end)
    require_ok cli resp
    v ← from_result (subscript resp (codes "data"))
    path_text ← from_result (subscript v (codes "path"))
    created ← from_result (subscript v (codes "created_at"))
    print (
        codes "^ Volume created: "
        ++ cli.str_of path_text
        ++ codes "\n  Created at:     "
        ++ cli.str_of (fmt_time cli created))

  unfoldable pub cmd_delete : Command
  unfolding print die send require_ok refuses
  cmd_delete [] = die (codes "usage: aifs delete <path>")
  cmd_delete (path ∷ _) = do
    refused ← refuses (codes "Delete volume '" ++ path ++ codes "'? [y/N] ")
    if refused then print (codes "Aborted.") else (do
      resp ← send cli (codes "delete_volume") (field (codes "path") (str path) end)
      require_ok cli resp
      print (codes "^ Deleted: " ++ path))

  unfoldable pub print_paths : Items F → M (AifsState W) (Unit {0})
  unfolding print subscript
  print_paths nil = pure tt
  print_paths (cons v vs) =
      let rest = print_paths vs in
      (do path ← from_result (subscript v (codes "path")); print (cli.str_of path); rest)

  -- A walk over what is no list is a `TypeError`, or a walk over keys that have no subscript.
  unfoldable pub list_items :
      Json F → (Items F → M (AifsState W) (Unit {0})) → M (AifsState W) (Unit {0})
  list_items (list vs) f = f vs
  list_items _ f = raise Exn.other_error

  unfoldable pub cmd_list : Command
  unfolding print die send require_ok get_of is_true print_paths list_items
  cmd_list [] = die (codes "usage: aifs list <root>")
  cmd_list (root ∷ _) = do
    resp ← send cli (codes "list_volumes") (field (codes "path") (str root) end)
    require_ok cli resp
    vols ← from_result (get_of resp (codes "data") null)
    if is_true cli.fl vols then list_items vols print_paths else print (codes "No volumes found.")

  abbrev second : List Text → Text
  second [] = []
  second (name ∷ _) = name

  unfoldable pub cmd_snap : Command
  unfolding print die send require_ok subscript fmt_time
  cmd_snap [] = die (codes "usage: aifs snap <volume> [name]")
  cmd_snap (volume ∷ rest) = do
    resp ←
        send cli (codes "snapshot")
          (field (codes "path") (str volume) (field (codes "name") (str (second rest)) end))
    require_ok cli resp
    s ← from_result (subscript resp (codes "data"))
    name ← from_result (subscript s (codes "name"))
    path ← from_result (subscript s (codes "path"))
    created ← from_result (subscript s (codes "created_at"))
    print (
        codes "^ Snapshot: "
        ++ cli.str_of name
        ++ codes "\n  Path:      "
        ++ cli.str_of path
        ++ codes "\n  Created:   "
        ++ cli.str_of (fmt_time cli created))

  print_snaps : Items F → M (AifsState W) (Unit {0})
  unfolding print subscript fmt_time
  print_snaps nil = pure tt
  print_snaps (cons s ss) =
      let rest = print_snaps ss in
      (do
        name ← from_result (subscript s (codes "name"))
        name_text ← from_result (cli.pad 30 name)
        created ← from_result (subscript s (codes "created_at"))
        time_text ← from_result (cli.pad 20 (fmt_time cli created))
        print (name_text ++ codes " " ++ time_text)
        rest)

  unfoldable pub cmd_snaps : Command
  unfolding print die send require_ok get_of is_true print_snaps list_items
  cmd_snaps [] = die (codes "usage: aifs snaps <volume>")
  cmd_snaps (volume ∷ _) = do
    resp ← send cli (codes "list_snapshots") (field (codes "path") (str volume) end)
    require_ok cli resp
    snaps ← from_result (get_of resp (codes "data") null)
    if is_true cli.fl snaps
        then (do
          name_head ← from_result (cli.pad 30 (str (codes "NAME")))
          created_head ← from_result (cli.pad 20 (str (codes "CREATED")))
          print (name_head ++ codes " " ++ created_head)
          print (codes "----------------------------------------------------")
          list_items snaps print_snaps)
        else print (codes "No snapshots.")

  unfoldable pub cmd_restore : Command
  unfolding print die send require_ok refuses
  cmd_restore (volume ∷ snap ∷ _) = do
    refused ← refuses (codes "Restore '" ++ volume ++ codes "' from '" ++ snap ++ codes "'? [y/N] ")
    if refused then print (codes "Aborted.") else (do
      resp ←
          send cli (codes "restore")
            (field (codes "path") (str volume) (field (codes "snap") (str snap) end))
      require_ok cli resp
      print (codes "^ Restored: " ++ volume ++ codes "  <- " ++ snap))
  cmd_restore _ = die (codes "usage: aifs restore <volume> <snapshot>")

  unfoldable pub cmd_rmsnap : Command
  unfolding print die send require_ok refuses
  cmd_rmsnap [] = die (codes "usage: aifs rmsnap <snapshot>")
  cmd_rmsnap (snap ∷ _) = do
    refused ← refuses (codes "Delete snapshot '" ++ snap ++ codes "'? [y/N] ")
    if refused then print (codes "Aborted.") else (do
      resp ← send cli (codes "delete_snapshot") (field (codes "snap") (str snap) end)
      require_ok cli resp
      print (codes "^ Snapshot deleted: " ++ snap))

  unfoldable pub cmd_help : Command
  unfolding print
  cmd_help _ = do
    print (codes "Usage: aifs <command> [args]\n")
    print (codes "  create  <path>             Create btrfs subvolume")
    print (codes "  delete  <path>             Delete subvolume")
    print (codes "  list    <root>             List subvolumes under root")
    print (codes "  snap    <volume> [name]    Take read-only snapshot")
    print (codes "  snaps   <volume>           List snapshots")
    print (codes "  restore <volume> <snap>    Restore volume from snapshot")
    print (codes "  rmsnap  <snapshot>         Delete snapshot")

  -- `COMMANDS`
  unfoldable pub commands : List (Text × Command)
  commands =
      (codes "create", cmd_create)
      ∷ (codes "delete", cmd_delete)
      ∷ (codes "list", cmd_list)
      ∷ (codes "snap", cmd_snap)
      ∷ (codes "snaps", cmd_snaps)
      ∷ (codes "restore", cmd_restore)
      ∷ (codes "rmsnap", cmd_rmsnap)
      ∷ (codes "help", cmd_help)
      ∷ []

  -- The command of a name, or what the program does for a name that it does not know.
  unfoldable pub dispatch : List (Text × Command) → Text → Command
  unfolding text_eq
  dispatch [] name args = cmd_help [] >> raise (Exn.system_exit 1)
  dispatch ((key, f) ∷ cs) name args =
      let rest = dispatch cs name args in if text_eq key name then f args else rest

  -- The lines at the end of the file, on `sys.argv[1:]`.
  unfoldable pub run : Command
  run [] = cmd_help [] >> raise (Exn.system_exit 0)
  run (name ∷ args) = dispatch commands name args
