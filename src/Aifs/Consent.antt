-- ===== src/Aifs/Consent.antt =====
-- aifs/cli/aifs.py: what the program does on its own, before or without an answer of the daemon.
use ai_m_os.Common.{
  ℕ, ◌≡◌, refl, Bool, true, false, List, [], ◌∷◌, ◌++◌, Text, codes, Exn, ok, raised, is_exception,
  arith,
}
use ai_m_os.Common.Lists.{any}
use ai_m_os.Common.Action.{M, ◌>>◌, raise}
use ai_m_os.Common.Str.{text_eq, lower}
use ai_m_os.Json.{Fields}
use ai_m_os.Aifs.{
  Cli, AifsState, Output, out, err, send, die, run, dispatch, commands, cmd_delete, cmd_restore,
  cmd_rmsnap, cmd_help, cmd_create, cmd_list, cmd_snap, cmd_snaps, print, refuses, socket_error,
}

-- The command lines that ask before they destroy something.
pub data Destructive : List Text → Type 0 where
  delete : (path : Text) (more : List Text) → Destructive (codes "delete" ∷ path ∷ more)
  restore :
      (volume snap : Text) (more : List Text) → Destructive (codes "restore" ∷ volume ∷ snap ∷ more)
  rmsnap : (snap : Text) (more : List Text) → Destructive (codes "rmsnap" ∷ snap ∷ more)

-- The command lines with an operand missing.
pub data TooShort : List Text → Type 0 where
  bare_create : TooShort (codes "create" ∷ [])
  bare_delete : TooShort (codes "delete" ∷ [])
  bare_list : TooShort (codes "list" ∷ [])
  bare_snap : TooShort (codes "snap" ∷ [])
  bare_snaps : TooShort (codes "snaps" ∷ [])
  bare_restore : TooShort (codes "restore" ∷ [])
  restore_from_nothing : (volume : Text) → TooShort (codes "restore" ∷ volume ∷ [])
  bare_rmsnap : TooShort (codes "rmsnap" ∷ [])

-- The names that the usage text lists, and `help`.
abbrev pub is_known : Text → Bool
is_known name =
    any (λ known. text_eq known name)
      (codes "create"
        ∷ codes "delete"
        ∷ codes "list"
        ∷ codes "snap"
        ∷ codes "snaps"
        ∷ codes "restore"
        ∷ codes "rmsnap"
        ∷ codes "help"
        ∷ [])

module _ {W F : Type 0} (cli : Cli W F) where
  refuses_lem :
      (prompt answer : Text) (w w' : W) (printed : List Output)
      → cli.input prompt w ≡ (ok answer, w')
      → text_eq (lower answer) (codes "y") ≡ false
      → refuses cli prompt (w, printed) ≡ (ok true, (w', printed))
  unfolding refuses
  refuses_lem prompt answer w w' printed asked e = ground arith

  -- A destructive command whose question is answered by anything but y or Y makes no request: it
  -- prints one line and ends in order, in the world that the question has left.
  pub run_refused :
      (argv : List Text) (answer : Text) (w w' : W) (printed : List Output)
      → Destructive argv
      → ((prompt : Text) → cli.input prompt w ≡ (ok answer, w'))
      → text_eq (lower answer) (codes "y") ≡ false
      → run cli argv (w, printed) ≡ (ok tt, (w', printed ++ out (codes "Aborted.") ∷ []))
  unfolding run dispatch commands text_eq cmd_delete cmd_restore cmd_rmsnap print
  run_refused argv answer w w' printed (delete path more) asked e = ground (
    arith,
    refuses_lem (codes "Delete volume '" ++ path ++ codes "'? [y/N] ") answer w w' printed (asked _)
        e,
  )
  run_refused argv answer w w' printed (restore volume snap more) asked e = ground (
    arith,
    refuses_lem (codes "Restore '" ++ volume ++ codes "' from '" ++ snap ++ codes "'? [y/N] ")
        answer w w' printed (asked _) e,
  )
  run_refused argv answer w w' printed (rmsnap snap more) asked e = ground (
    arith,
    refuses_lem (codes "Delete snapshot '" ++ snap ++ codes "'? [y/N] ") answer w w' printed
        (asked _) e,
  )

  -- A command that lacks an operand makes no request and asks nothing: it prints one line of usage
  -- to the standard error and exits with 1, in the world as it was.
  pub run-TooShort :
      (argv : List Text) (w : W) (printed : List Output)
      → TooShort argv
      → (usage : Text) × (run cli argv (w, printed) ≡ (
        raised (Exn.system_exit 1),
        (w, printed ++ err (codes "error: usage: aifs " ++ usage) ∷ []),
      ))
  unfolding run dispatch commands text_eq cmd_create cmd_delete cmd_list cmd_snap cmd_snaps
      cmd_restore cmd_rmsnap die
  run-TooShort argv w printed bare_create = (codes "create <path>", refl)
  run-TooShort argv w printed bare_delete = (codes "delete <path>", refl)
  run-TooShort argv w printed bare_list = (codes "list <root>", refl)
  run-TooShort argv w printed bare_snap = (codes "snap <volume> [name]", refl)
  run-TooShort argv w printed bare_snaps = (codes "snaps <volume>", refl)
  run-TooShort argv w printed bare_restore = (codes "restore <volume> <snapshot>", refl)
  run-TooShort argv w printed (restore_from_nothing volume) =
      (codes "restore <volume> <snapshot>", refl)
  run-TooShort argv w printed bare_rmsnap = (codes "rmsnap <snapshot>", refl)

  help_exit :
      (n : ℕ) (s : AifsState W)
      → ((cmd_help cli [] >> raise {A = Unit {0}} (Exn.system_exit n)) s
          ≡ (raised (Exn.system_exit n), (cmd_help cli [] s).1))
        × ((cmd_help cli [] s).1.0 ≡ s.0)
  unfolding cmd_help print
  help_exit n s = (refl, refl)

  dispatch_unknown :
      (cs : List (Text × (List Text → M (AifsState W) (Unit {0})))) (name : Text) (args : List Text)
      (s : AifsState W)
      → any (λ c. text_eq c.0 name) cs ≡ false
      → dispatch cli cs name args s ≡ (raised (Exn.system_exit 1), (cmd_help cli [] s).1)
  unfolding dispatch
  dispatch_unknown [] name args s h = (help_exit 1 s).0
  dispatch_unknown ((key, f) ∷ cs) name args s h = ground (arith, dispatch_unknown cs name args s)

  -- A name that is no command makes no request: the program prints its usage and exits with 1, in
  -- the world as it was. Without a name it prints the same and exits with 0.
  pub run_unknown :
      (name : Text) (args : List Text) (s : AifsState W)
      → is_known name ≡ false
      → (run cli (name ∷ args) s ≡ (raised (Exn.system_exit 1), (cmd_help cli [] s).1))
        × (run cli [] s ≡ (raised (Exn.system_exit 0), (cmd_help cli [] s).1))
        × ((cmd_help cli [] s).1.0 ≡ s.0)
  unfolding run commands
  run_unknown name args s unknown =
      (dispatch_unknown (commands cli) name args s unknown, (help_exit 0 s).0, (help_exit 0 s).1)

  -- Whatever the socket, the daemon or its answer do, no `Exception` leaves `send`: the request has
  -- an answer, or the program is on its way to an exit.
  pub send-raised :
      (op : Text) (kwargs : Fields F) (s : AifsState W) (e : Exn)
      → (send cli op kwargs s).0 ≡ raised e
      → is_exception e ≡ false
  unfolding send socket_error die
  send-raised op kwargs s e h = ground arith
