-- ===== src/Examples/Commands.antt =====
-- The command line against a daemon that is not there, and the window on the example machine.

use ai_m_os.Common.{
  ℕ, ◌≡◌, refl, true, false, [], ◌∷◌, ◌++◌, Text, codes, none, Exn, ok, raised, is_exception,
}
use ai_m_os.Common.Str.{text_eq, lower}
use ai_m_os.Json.{end}
use ai_m_os.Client.{Sockets, read_daemon, with_socket, fetch}
use ai_m_os.Client.Receive.{read_daemon-raised}
use ai_m_os.Machine.{Os}
use ai_m_os.Host.{Host, host_os}
use ai_m_os.Aifs.{Cli, out, err, run, send, cmd_help, exchange, socket_error, die}
use ai_m_os.Aifs.Consent.{
  restore, restore_from_nothing, run_refused, run-TooShort, run_unknown, send-raised,
}
use ai_m_os.Examples.Fixed.{fixed}
use ai_m_os.Examples.Laptop.{laptop}

-- Nobody listens; a connection that is interrupted raises no `Exception`.
abbrev sockets : Exn → Sockets Host
sockets e = record {
  Sock = Unit;
  open_socket = λ h. (ok tt, h);
  set_timeout = λ s seconds h. (ok tt, h);
  connect = λ s path h. (raised e, h);
  send_all = λ s t h. (ok tt, h);
  recv = λ s h. (ok [], h);
  close = λ s h. (ok tt, h);
}

abbrev cli : Exn → Cli Host ℕ
cli e = record {
  net = sockets e;
  fl = fixed;
  dumps = λ v. codes "{}";
  loads = λ t. raised Exn.value_error;
  str_of = λ v. codes "value";
  pad = λ n v. ok (codes "value");
  message_of = λ x. codes "message";
  format_time = λ v. none;
  input = λ prompt h. (ok (codes "n"), h);
  fuel = 100;
}

run_refused_example :
    run (cli Exn.os_error) (codes "restore" ∷ codes "/home" ∷ codes "monday" ∷ []) (laptop, [])
    ≡ (ok tt, (laptop, [] ++ out (codes "Aborted.") ∷ []))
unfolding text_eq lower
run_refused_example =
    run_refused (cli Exn.os_error) (codes "restore" ∷ codes "/home" ∷ codes "monday" ∷ [])
      (codes "n") laptop laptop [] (restore (codes "/home") (codes "monday") []) (λ prompt. refl)
      refl

run-TooShort_example :
    (usage : Text) × (run (cli Exn.os_error) (codes "restore" ∷ codes "/home" ∷ []) (laptop, []) ≡ (
      raised (Exn.system_exit 1),
      (laptop, [] ++ err (codes "error: usage: aifs " ++ usage) ∷ []),
    ))
run-TooShort_example =
    run-TooShort (cli Exn.os_error) (codes "restore" ∷ codes "/home" ∷ []) laptop []
      (restore_from_nothing (codes "/home"))

run_unknown_example :
    (run (cli Exn.os_error) (codes "format" ∷ []) (laptop, [])
      ≡ (raised (Exn.system_exit 1), (cmd_help (cli Exn.os_error) [] (laptop, [])).1))
    × (run (cli Exn.os_error) [] (laptop, [])
        ≡ (raised (Exn.system_exit 0), (cmd_help (cli Exn.os_error) [] (laptop, [])).1))
    × ((cmd_help (cli Exn.os_error) [] (laptop, [])).1.0 ≡ laptop)
unfolding text_eq
run_unknown_example = run_unknown (cli Exn.os_error) (codes "format") [] (laptop, []) refl

send-raised_example : is_exception (Exn.system_exit 1) ≡ false
unfolding send exchange socket_error die
send-raised_example =
    send-raised (cli Exn.file_not_found) (codes "restore") end (laptop, []) (Exn.system_exit 1) refl

-- Every path is there.
abbrev open_os : Os Host
open_os = record host_os { path_exists = λ p h. (ok true, h) }

read_daemon-raised_example : is_exception Exn.keyboard_interrupt ≡ false
unfolding read_daemon fetch with_socket text_eq
read_daemon-raised_example =
    read_daemon-raised {F = ℕ} (sockets Exn.keyboard_interrupt) open_os
      (λ t. raised Exn.value_error) 100 (codes "power") laptop Exn.keyboard_interrupt
      (λ p. (true, refl)) refl
