-- ===== src/Client.antt =====
-- ai-daemon/proto/client.py: one answer from a Go daemon over its Unix socket. The sockets and
-- `json.loads` are interfaces.
pub mod Receive
pub mod Balance
use ai_m_os.Common.{
  Bool, true, false, ℕ, zero, suc, [], ◌∷◌, ◌++◌, Text, codes, Option, none, some, Exn, Result,
  is_exception, if◌then◌else◌,
}
use ai_m_os.Common.Str.{text_eq}
use ai_m_os.Common.Action.{M, ◌>>=◌, ◌>>◌, pure, raise, try_except, from_result}
use ai_m_os.Json.{Json}
use ai_m_os.Machine.{Os}

pub record Sockets (W : Type 0) : Type 1 where
  pub Sock : Type 0
  -- `socket(AF_UNIX, SOCK_STREAM)`
  pub open_socket : M W Sock
  -- `settimeout`, in seconds
  pub set_timeout : Sock → ℕ → M W (Unit {0})
  pub connect : Sock → Text → M W (Unit {0})
  pub send_all : Sock → Text → M W (Unit {0})
  -- `recv(4096)`; the empty answer means that the other side has closed
  pub recv : Sock → M W Text
  -- the end of the `with`
  pub close : Sock → M W (Unit {0})

-- `SOCKET_PATHS.get(name)`
abbrev pub socket_path : Text → Option Text
socket_path name =
    if text_eq name (codes "network")
    then some (codes "/run/aimos/network-daemon.sock")
    else if text_eq name (codes "power")
    then some (codes "/run/aimos/power-daemon.sock")
    else if text_eq name (codes "sensor")
    then some (codes "/run/aimos/sensor-daemon.sock")
    else none

module _ {W : Type 0} (net : Sockets W) where
  abbrev pub is_empty : Text → Bool
  is_empty [] = true
  is_empty (_ ∷ _) = false

  -- `while chunk := s.recv(4096): data += chunk`, for at most `fuel` calls of `recv`.
  unfoldable pub recv_all : ℕ → net.Sock → Text → M W Text
  recv_all zero s received = raise Exn.out_of_fuel
  recv_all (suc fuel) s received = do
    chunk ← net.recv s
    if is_empty chunk then pure received else recv_all fuel s (received ++ chunk)

  -- `with socket.socket(…) as s:` with its body; the socket is closed in both cases.
  unfoldable pub with_socket : {A : Type 0} → (net.Sock → M W A) → M W A
  with_socket body = do
    s ← net.open_socket
    λ w. let (r, w') = body s w in ((net.close s >> from_result r) w')

  -- The body of the `with`, with so many calls of `recv`.
  unfoldable pub receive : ℕ → Text → net.Sock → M W Text
  unfolding recv_all
  receive fuel path s = do net.set_timeout s 2; net.connect s path; recv_all fuel s []

  module _ {F : Type 0} (os : Os W) (json_loads : Text → Result (Json F)) (fuel : ℕ) where
    unfoldable pub fetch : Text → M W (Option (Json F))
    unfolding receive with_socket
    fetch path = do
      text ← with_socket (receive fuel path)
      value ← from_result (json_loads text)
      pure (some value)

    unfoldable pub read_daemon : Text → M W (Option (Json F))
    unfolding fetch text_eq
    read_daemon name = elim (socket_path name) [
      | none ↦ pure none
      | some path ↦ (do
        there ← os.path_exists path
        if there then try_except is_exception (fetch path) (λ _. pure none) else pure none)
    ]
