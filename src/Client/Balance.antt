-- ===== src/Client/Balance.antt =====
-- The sockets that are open, while answers are read.
use ai_m_os.Common.{
  ℕ, zero, suc, ◌-◌, ◌≡◌, refl, ◌∙◌, ap, Option, none, some, [], ◌++◌, Text, Exn, Result, ok,
  raised, is_exception, if◌then◌else◌, arith,
}
use ai_m_os.Common.Action.{M, ◌>>=◌, ◌>>◌, pure, from_result, try_except}
use ai_m_os.Common.Keeps.{
  Keeps, Keeps-bind, Keeps-then, Keeps-if, Keeps-pure, Keeps-raise, Keeps-from_result,
  Keeps-try_except,
}
use ai_m_os.Json.{Json}
use ai_m_os.Machine.{Os}
use ai_m_os.Client.{
  Sockets, is_empty, recv_all, with_socket, receive, fetch, read_daemon, socket_path,
}

module _ {W : Type 0} (opened : W → ℕ) where
  -- A socket that cannot be had is not open.
  abbrev Opens : {A : Type 0} → ℕ → Result A × W → Type 0
  Opens n (ok _, w) = opened w ≡ suc n
  Opens n (raised _, w) = opened w ≡ n

  -- What opens a socket and what closes it, also where the close raises.
  pub record IsCounted (net : Sockets W) : Type 0 where
    pub open_lem : (w : W) → Opens (opened w) (net.open_socket w)
    pub set_timeout_lem :
        (s : net.Sock) (seconds : ℕ) (w : W) → opened (net.set_timeout s seconds w).1 ≡ opened w
    -- A `connect` that fails leaves its socket open.
    pub connect_lem :
        (s : net.Sock) (path : Text) (w : W) → opened (net.connect s path w).1 ≡ opened w
    pub close_lem : (s : net.Sock) (w : W) → opened (net.close s w).1 ≡ opened w - 1
    pub recv_lem : (s : net.Sock) (w : W) → opened (net.recv s w).1 ≡ opened w
    pub send_all_lem :
        (s : net.Sock) (text : Text) (w : W) → opened (net.send_all s text w).1 ≡ opened w

  abbrev pub Open : ℕ → W → Type 0
  Open n w = opened w ≡ n

  module _ (net : Sockets W) (counted : IsCounted net) where
    pub recv_all-Keeps :
        (n fuel : ℕ) (s : net.Sock) (received : Text)
        → Keeps (Open n) (recv_all net fuel s received)
    unfolding recv_all
    recv_all-Keeps n zero s received = Keeps-raise Exn.out_of_fuel
    recv_all-Keeps n (suc fuel) s received =
        Keeps-bind (net.recv s) _ (record { at = λ w h. counted.recv_lem s w ∙ h })
          λ chunk.
            Keeps-if (is_empty net chunk) (pure received) (recv_all net fuel s (received ++ chunk))
              (Keeps-pure received) (recv_all-Keeps n fuel s (received ++ chunk))

    pub with_socket-Keeps :
        {A : Type 0} (n : ℕ) (body : net.Sock → M W A)
        → ((s : net.Sock) → Keeps (Open (suc n)) (body s))
        → Keeps (Open n) (with_socket net body)
    unfolding with_socket
    with_socket-Keeps {A} n body kb = record {
      at = λ w h. go (net.open_socket w) (subst_opens w h (net.open_socket w) (counted.open_lem w));
    }
      where
        subst_opens :
            (w : W) → Open n w → (out : Result net.Sock × W) → Opens (opened w) out → Opens n out
        subst_opens w h (ok s, v) e = e ∙ ap suc h
        subst_opens w h (raised x, v) e = e ∙ h

        after :
            (r : Result A) (s : net.Sock) (v : W)
            → Open (suc n) v
            → Open n ((net.close s >> from_result r) v).1
        after r s v h = closed (net.close s v) (omega (arith, counted.close_lem s v, h))
          where
            closed :
                (out : Result (Unit {0}) × W)
                → Open n out.1
                → Open n
                    (elim out.0 as (λ x. Result A × W) [
                      | ok _ ↦ (r, out.1)
                      | raised e ↦ (raised e, out.1)
                    ]).1
            closed (ok _, u) e = e
            closed (raised x, u) e = e

        go :
            (out : Result net.Sock × W)
            → Opens n out
            → Open n
                (elim out.0 as (λ x. Result A × W) [
                  | ok s ↦ (net.close s >> from_result (body s out.1).0) (body s out.1).1
                  | raised e ↦ (raised e, out.1)
                ]).1
        go (ok s, v) h = after (body s v).0 s (body s v).1 ((kb s).at v h)
        go (raised e, v) h = h

    receive-Keeps :
        (n fuel : ℕ) (path : Text) (s : net.Sock) → Keeps (Open n) (receive net fuel path s)
    unfolding receive
    receive-Keeps n fuel path s =
        Keeps-then (net.set_timeout s 2) _
          (record { at = λ w h. counted.set_timeout_lem s 2 w ∙ h })
          (Keeps-then (net.connect s path) (recv_all net fuel s [])
            (record { at = λ w h. counted.connect_lem s path w ∙ h }) (recv_all-Keeps n fuel s []))

    module _ {F : Type 0} (os : Os W) (json_loads : Text → Result (Json F)) (fuel : ℕ)
        (looks : (path : Text) (w : W) → opened (os.path_exists path w).1 ≡ opened w) where
      fetch-Keeps : (n : ℕ) (path : Text) → Keeps (Open n) (fetch net os json_loads fuel path)
      unfolding fetch
      fetch-Keeps n path =
          Keeps-bind (with_socket net (receive net fuel path)) _
            (with_socket-Keeps n (receive net fuel path) (receive-Keeps (suc n) fuel path))
            λ text.
              Keeps-bind (from_result (json_loads text)) _ (Keeps-from_result _)
                λ value. Keeps-pure (some value)

      read_daemon-Keeps :
          (n : ℕ) (name : Text) → Keeps (Open n) (read_daemon net os json_loads fuel name)
      unfolding read_daemon
      read_daemon-Keeps n name = go (socket_path name)
        where
          go :
              (p : Option Text)
              → Keeps {A = Option (Json F)} (Open n) (elim p as (λ x. M W (Option (Json F))) [
                | none ↦ pure none
                | some path ↦ (do
                  there ← os.path_exists path
                  if there
                      then try_except is_exception
                          (fetch net os json_loads fuel path)
                          (λ _. pure none)
                      else pure none)
              ])
          go none = Keeps-pure none
          go (some path) =
              Keeps-bind (os.path_exists path) _ (record { at = λ w h. looks path w ∙ h })
                λ there.
                  Keeps-if there _ (pure none)
                    (Keeps-try_except is_exception (fetch net os json_loads fuel path) _
                      (fetch-Keeps n path) λ _. Keeps-pure none)
                    (Keeps-pure none)

      -- Where a socket that can be had is open, also if its `connect` fails, a `close` closes it even
      -- if it raises, and nothing else opens or closes one: after `read_daemon` as many sockets are
      -- open as before, whatever the peer sends, and whichever call raises whichever exception.
      pub read_daemon_balance :
          (name : Text) (w : W) → opened (read_daemon net os json_loads fuel name w).1 ≡ opened w
      read_daemon_balance name w = (read_daemon-Keeps (opened w) name).at w refl
