-- ===== src/Aifs/Balance.antt =====
-- The sockets that are open, around a request of the command line.
use ai_m_os.Common.{ℕ, ◌≡◌, refl, ◌∙◌, suc, codes, ◌++◌, [], Text, Exn, is_exception, arith}
use ai_m_os.Common.Action.{lift, from_result}
use ai_m_os.Common.Keeps.{
  Keeps, Keeps-bind, Keeps-then, Keeps-try_except, Keeps-lift, Keeps-from_result,
}
use ai_m_os.Json.{Json, str, Fields, field, dict}
use ai_m_os.Client.{recv_all, with_socket}
use ai_m_os.Client.Balance.{IsCounted, Open, with_socket-Keeps, recv_all-Keeps}
use ai_m_os.Aifs.{socket_path}
use ai_m_os.Aifs.{Cli, AifsState, die, converse, exchange, socket_error, send}

module _ {W F : Type 0} (opened : W → ℕ) (cli : Cli W F) (counted : IsCounted opened cli.net) where
  converse-Keeps :
      (n : ℕ) (req : Json F) (s : cli.net.Sock) → Keeps (Open opened n) (converse cli req s)
  unfolding converse
  converse-Keeps n req s =
      Keeps-then (cli.net.set_timeout s 10) _
        (record { at = λ w h. counted.set_timeout_lem s 10 w ∙ h })
        (Keeps-then (cli.net.connect s socket_path) _
          (record { at = λ w h. counted.connect_lem s socket_path w ∙ h })
          (Keeps-then (cli.net.send_all s (cli.dumps req ++ codes "\n"))
            (recv_all cli.net cli.fuel s [])
            (record { at = λ w h. counted.send_all_lem s (cli.dumps req ++ codes "\n") w ∙ h })
            (recv_all-Keeps opened cli.net counted n cli.fuel s [])))

  exchange-Keeps : (n : ℕ) (req : Json F) → Keeps (Open opened n) (exchange cli req)
  unfolding exchange
  exchange-Keeps n req =
      Keeps-bind (with_socket cli.net (converse cli req)) (λ answer. from_result (cli.loads answer))
        (with_socket-Keeps opened cli.net counted n (converse cli req) (converse-Keeps (suc n) req))
        λ answer. Keeps-from_result (cli.loads answer)

  socket_error-Keeps :
      (n : ℕ) (e : Exn) → Keeps (λ (s : AifsState W). Open opened n s.0) (socket_error cli e)
  unfolding socket_error die
  socket_error-Keeps n e = record { at = λ s h. ground (arith, h) }

  -- Where a socket that can be had is open, also if its `connect` fails, a `close` closes it even if
  -- it raises, and nothing else opens or closes one: after `send` as many sockets are open as before,
  -- whatever the daemon answers, and whichever call raises whichever exception.
  pub send_balance :
      (op : Text) (kwargs : Fields F) (s : AifsState W)
      → opened (send cli op kwargs s).1.0 ≡ opened s.0
  unfolding send
  send_balance op kwargs s =
      (Keeps-try_except {P = λ (v : AifsState W). Open opened (opened s.0) v.0} is_exception
          (lift (exchange cli (dict (field (codes "op") (str op) kwargs)))) (socket_error cli)
          (Keeps-lift _ (exchange-Keeps (opened s.0) _)) (socket_error-Keeps (opened s.0))).at
        s refl
