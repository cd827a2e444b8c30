-- ===== src/Examples/Sockets.antt =====
-- A world that counts its open sockets.
use ai_m_os.Common.{ℕ, suc, ◌-◌, ◌≡◌, refl, none, [], ok, raised, Exn, codes, true}
use ai_m_os.Machine.{Os}
use ai_m_os.Client.{Sockets, read_daemon}
use ai_m_os.Client.Balance.{IsCounted, read_daemon_balance}
use ai_m_os.Aifs.{Cli}
use ai_m_os.Examples.Fixed.{fixed}

-- Nobody listens, and every `recv` raises.
abbrev broken : Sockets ℕ
broken = record {
  Sock = Unit;
  open_socket = λ n. (ok tt, suc n);
  set_timeout = λ s seconds n. (ok tt, n);
  connect = λ s path n. (raised Exn.file_not_found, n);
  send_all = λ s t n. (ok tt, n);
  recv = λ s n. (raised Exn.os_error, n);
  close = λ s n. (ok tt, n - 1);
}

broken-IsCounted : IsCounted (λ n. n) broken
broken-IsCounted = record {
  open_lem = λ n. refl;
  set_timeout_lem = λ s seconds n. refl;
  connect_lem = λ s path n. refl;
  close_lem = λ s n. refl;
  recv_lem = λ s n. refl;
  send_all_lem = λ s t n. refl;
}

abbrev plain_os : Os ℕ
plain_os = record {
  path_exists = λ p n. (ok true, n);
  read_text = λ p n. (raised Exn.file_not_found, n);
  write_text = λ p t n. (raised Exn.permission_error, n);
  scandir = λ p n. (ok [], n);
  getpriority = λ pid n. (raised Exn.process_lookup, n);
  setpriority = λ pid v n. (raised Exn.process_lookup, n);
}

read_daemon_balance_example :
    (read_daemon broken {F = ℕ} plain_os (λ t. raised Exn.value_error) 10 (codes "power") 3).1 ≡ 3
read_daemon_balance_example =
    read_daemon_balance (λ n. n) broken broken-IsCounted plain_os (λ t. raised Exn.value_error) 10
      (λ path n. refl) (codes "power") 3

abbrev cli : Cli ℕ ℕ
cli = record {
  net = broken;
  fl = fixed;
  dumps = λ v. codes "{}";
  loads = λ t. raised Exn.value_error;
  str_of = λ v. codes "value";
  pad = λ n v. ok (codes "value");
  message_of = λ x. codes "message";
  format_time = λ v. none;
  input = λ prompt h. (ok (codes "n"), h);
  fuel = 100;
}
