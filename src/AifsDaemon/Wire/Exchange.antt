-- ===== src/AifsDaemon/Wire/Exchange.antt =====
-- A request of the command line and the answer of the daemon.
use ai_m_os.Common.{◌≡◌, ◌≢◌, refl, true, List, [], ◌∷◌, Text, codes, ok, arith}
use ai_m_os.Common.Lists.{All}
use ai_m_os.Common.Str.{text_eq}
use ai_m_os.Client.{with_socket}
use ai_m_os.Client.Receive.{Delivers, recv_all-concat}
use ai_m_os.Aifs.{Cli, exchange, converse}
use ai_m_os.Json.{str, dict, Fields, field}
use ai_m_os.AifsDaemon.Go.{Outcome, value}
use ai_m_os.AifsDaemon.Calls.{System}
use ai_m_os.AifsDaemon.Handle.{Request, Response, handle, answer}
use ai_m_os.AifsDaemon.Wire.{Sent, Served, peer, Speaks, json_of}

module _ {W : Type 0} (sys : System W) (decode : Text → Outcome Request) (encode : Response → Text)
    (pieces : Text → List Text) where
  delivered :
      (ps : List Text) (w : W)
      → All (λ piece. piece ≢ []) ps
      → Delivers
          (peer sys decode encode pieces)
          tt
          ps
          (record { host = w; unread = ps; runs = true })
          (record { host = w; unread = []; runs = true })
  delivered [] w h = refl
  delivered (p ∷ ps) w h =
      (h.0, (record { host = w; unread = ps; runs = true }, refl, delivered ps w h.1))

  module _ {F : Type 0} where
    -- The command line with the daemon at the other end of its sockets.
    abbrev pub facing : Cli (Served W) F → Cli (Served W) F
    facing cli = record cli { net = peer sys decode encode pieces }

  module _ {F : Type 0} (cli : Cli (Served W) F)
      (speaks : Speaks sys decode encode pieces cli) where
    -- The daemon gets the request that was made, and its answer comes back.
    pub exchange-answer :
        (op : Text) (fields : Fields F) (req : Request) (w w' : W) (unread : List Text)
        (r : Response)
        → Sent op fields req
        → answer sys req w ≡ (value r, w')
        → exchange
            (facing cli)
            (dict (field (codes "op") (str op) fields))
            (record { host = w; unread = unread; runs = true })
          ≡ (ok (json_of r), record { host = w'; unread = []; runs = true })
    unfolding exchange converse with_socket text_eq handle
    exchange-answer op fields req w w' unread r sent e = ground (
      arith,
      speaks.decode_lem op fields req sent,
      e,
      recv_all-concat (peer sys decode encode pieces) tt cli.fuel (pieces (encode r)) []
          (record { host = w'; unread = pieces (encode r); runs = true })
          (record { host = w'; unread = []; runs = true }) (speaks.fuel_lem r)
          (delivered (pieces (encode r)) w' (speaks.pieces-full (encode r))),
      speaks.pieces_lem (encode r),
      speaks.loads_lem r,
    )
