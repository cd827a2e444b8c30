-- ===== src/AifsDaemon/Wire/Told.antt =====
-- A command of the command line tells what the daemon did.
use ai_m_os.Common.{
  ◌≡◌, refl, true, List, [], ◌∷◌, ◌++◌, Text, codes, Exn, Result, ok, raised, arith,
}
use ai_m_os.Common.Str.{text_eq}
use ai_m_os.Common.Action.{M, ◌>>=◌, ◌>>◌}
use ai_m_os.Aifs.{Cli, AifsState, Output, out, err, send, require_ok, print, die, get_of}
use ai_m_os.Json
use ai_m_os.Json.{Json, Fields, dict, field, str, is_true}
use ai_m_os.AifsDaemon.Go.{G, Outcome, value, fault, panic}
use ai_m_os.AifsDaemon.Calls.{System}
use ai_m_os.AifsDaemon.Volumes.{delete_volume, restore_snapshot, delete_snapshot}
use ai_m_os.AifsDaemon.Handle.{Request, Response, Payload, done, refused, answer}
use ai_m_os.AifsDaemon.Wire.{Sent, Served, Speaks, json_of, error_fields, data_fields}
use ai_m_os.AifsDaemon.Wire.Exchange.{facing, exchange-answer}

-- `resp.get("error", "unknown error")`, where an empty text was left out.
abbrev pub shown : Text → Text
shown [] = codes "unknown error"
shown (c ∷ e) = c ∷ e

abbrev pub idle : {W : Type 0} → W → Served W
idle w = record { host = w; unread = []; runs = true }

-- What the program does and prints for an outcome of the daemon's work; a panic is none.
unfoldable pub IsTold :
    {W : Type 0}
    → Text
    → List Output
    → Outcome (Unit {0})
    → W
    → Result (Unit {0}) × AifsState (Served W)
    → Type 0
IsTold message printed (value _) w' end = end ≡ (ok tt, (idle w', printed ++ out message ∷ []))
IsTold message printed (fault e) w' end =
    end ≡ (raised (Exn.system_exit 1), (idle w', printed ++ err (codes "error: " ++ shown e) ∷ []))
IsTold message printed panic w' end = ⊥

module _ {W F : Type 0} (sys : System W) (decode : Text → Outcome Request)
    (encode : Response → Text) (pieces : Text → List Text) (cli : Cli (Served W) F)
    (speaks : Speaks sys decode encode pieces cli)
    (plain : (e : Text) → cli.str_of (str e) ≡ e) where
  abbrev user : Cli (Served W) F
  user = facing sys decode encode pieces cli

  -- What the three commands do after the question.
  abbrev pub request_of : Text → Fields F → Text → M (AifsState (Served W)) (Unit {0})
  request_of op fields message =
      send user op fields >>= λ resp. require_ok user resp >> print message

  pub send-answer :
      (op : Text) (fields : Fields F) (req : Request) (w w' : W) (r : Response)
      (printed : List Output)
      → Sent op fields req
      → answer sys req w ≡ (value r, w')
      → send user op fields (idle w, printed) ≡ (ok (json_of r), (idle w', printed))
  unfolding send
  send-answer op fields req w w' r printed sent e =
      ground
        (arith, exchange-answer sys decode encode pieces cli speaks op fields req w w' [] r sent e)

  pub require_ok-done :
      (p : Payload) (s : AifsState (Served W)) → require_ok user (json_of (done p)) s ≡ (ok tt, s)
  unfolding require_ok json_of get_of is_true error_fields Json.get text_eq
  require_ok-done p s = refl

  require_ok-refused :
      (e : Text) (w : Served W) (printed : List Output)
      → require_ok user (json_of (refused e)) (w, printed)
        ≡ (raised (Exn.system_exit 1), (w, printed ++ err (codes "error: " ++ shown e) ∷ []))
  unfolding require_ok json_of get_of is_true error_fields data_fields Json.get text_eq die
  require_ok-refused [] w printed = rw (plain (codes "unknown error")) refl
  require_ok-refused (c ∷ e) w printed = rw (plain (c ∷ e)) refl

  pub request_of-done :
      (op : Text) (fields : Fields F) (message : Text) (req : Request) (w w' : W) (p : Payload)
      (printed : List Output)
      → Sent op fields req
      → answer sys req w ≡ (value (done p), w')
      → request_of op fields message (idle w, printed)
        ≡ (ok tt, (idle w', printed ++ out message ∷ []))
  unfolding print
  request_of-done op fields message req w w' p printed sent e = ground (
    arith,
    send-answer op fields req w w' (done p) printed sent e,
    require_ok-done p (idle w', printed),
  )

  pub request_of-refused :
      (op : Text) (fields : Fields F) (message : Text) (req : Request) (w w' : W) (e : Text)
      (printed : List Output)
      → Sent op fields req
      → answer sys req w ≡ (value (refused e), w')
      → request_of op fields message (idle w, printed)
        ≡ (raised (Exn.system_exit 1), (idle w', printed ++ err (codes "error: " ++ shown e) ∷ []))
  request_of-refused op fields message req w w' e printed sent h = ground (
    arith,
    send-answer op fields req w w' (refused e) printed sent h,
    require_ok-refused e (idle w') printed,
  )

-- The commands that ask first: the daemon's work, and the line that reports it.
pub data Asks {W : Type 0} (sys : System W) : List Text → G W (Unit {0}) → Text → Type 0 where
  delete :
      (path : Text) (more : List Text)
      → Asks sys
          (codes "delete" ∷ path ∷ more)
          (delete_volume sys path)
          (codes "^ Deleted: " ++ path)
  restore :
      (volume snap : Text) (more : List Text)
      → Asks sys
          (codes "restore" ∷ volume ∷ snap ∷ more)
          (restore_snapshot sys snap volume)
          (codes "^ Restored: " ++ volume ++ codes "  <- " ++ snap)
  rmsnap :
      (snap : Text) (more : List Text)
      → Asks sys
          (codes "rmsnap" ∷ snap ∷ more)
          (delete_snapshot sys snap)
          (codes "^ Snapshot deleted: " ++ snap)
