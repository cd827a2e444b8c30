-- ===== src/AifsDaemon/Handle.antt =====
-- aifs/daemon/main.go: the requests, their dispatch and the answers.
use ai_m_os.Common.{Bool, true, false, Text, codes, ◌++◌, [], if◌then◌else◌}
use ai_m_os.Common.Str.{text_eq}
use ai_m_os.AifsDaemon.Go.{G, Outcome, value, fault, panic, pure}
use ai_m_os.AifsDaemon.Calls.{System, Slice}
use ai_m_os.AifsDaemon.Volumes.{
  Volume, Snapshot, create_volume, delete_volume, list_volumes, take_snapshot, list_snapshots,
  restore_snapshot, delete_snapshot,
}

pub record Request : Type 0 where
  pub op : Text
  pub path : Text
  pub name : Text
  pub snap : Text

pub data Payload : Type 0 where
  no_payload : Payload
  one_volume : Volume → Payload
  volumes : Slice Volume → Payload
  one_snapshot : Snapshot → Payload
  snapshots : Slice Snapshot → Payload

pub record Response : Type 0 where
  pub is_ok : Bool
  pub error : Text
  pub payload : Payload

abbrev pub done : Payload → Response
done p = record { is_ok = true; error = []; payload = p }

abbrev pub refused : Text → Response
refused e = record { is_ok = false; error = e; payload = no_payload }

-- `if err != nil { resp = Response{Error: …} } else { resp = Response{OK: true, Data: …} }`
unfoldable pub respond : {W A : Type 0} → (A → Payload) → G W A → G W Response
respond f m w =
    let (r, w') = m w in
    elim r [
      | value a ↦ (value (done (f a)), w')
      | fault e ↦ (value (refused e), w')
      | panic ↦ (panic, w')
    ]

module _ {W : Type 0} (sys : System W) where
  -- the `switch`
  unfoldable pub answer : Request → G W Response
  unfolding respond text_eq
  answer req =
      if text_eq req.op (codes "create_volume")
      then respond one_volume (create_volume sys req.path)
      else if text_eq req.op (codes "delete_volume")
      then respond (λ _. no_payload) (delete_volume sys req.path)
      else if text_eq req.op (codes "list_volumes")
      then respond volumes (list_volumes sys req.path)
      else if text_eq req.op (codes "snapshot")
      then respond one_snapshot (take_snapshot sys req.path req.name)
      else if text_eq req.op (codes "list_snapshots")
      then respond snapshots (list_snapshots sys req.path)
      else if text_eq req.op (codes "restore")
      then respond (λ _. no_payload) (restore_snapshot sys req.snap req.path)
      else if text_eq req.op (codes "delete_snapshot")
      then respond (λ _. no_payload) (delete_snapshot sys req.snap)
      else pure (refused (codes "unknown op: " ++ req.op))

  -- `handle`, up to the encoding of what it writes. `decode` is `json.NewDecoder(conn).Decode`.
  unfoldable pub handle : (Text → Outcome Request) → Text → G W Response
  unfolding answer
  handle decode text w = elim (decode text) [
    | value req ↦ answer req w
    | fault e ↦ (value (refused (codes "bad request: " ++ e)), w)
    | panic ↦ (panic, w)
  ]
