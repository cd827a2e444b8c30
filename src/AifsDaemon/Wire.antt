-- ===== src/AifsDaemon/Wire.antt =====
-- aifs/daemon/main.go behind its socket, for aifs/cli/aifs.py: the answers as JSON, and a peer that
-- reads one request of a connection, answers and closes.
pub mod Exchange
pub mod Told
pub mod Confirmed
pub mod Session
use ai_m_os.Common.{
  ℕ, ◌≡◌, ◌≢◌, ◌<◌, Bool, true, false, ◌&&◌, List, [], ◌∷◌, ◌++◌, Text, codes, Exn, Result, ok,
  raised, if◌then◌else◌,
}
use ai_m_os.Common.Lists.{length, All}
use ai_m_os.Common.Str.{text_eq}
use ai_m_os.Client.{Sockets}
use ai_m_os.Client.Receive.{concat}
use ai_m_os.Aifs.{Cli}
use ai_m_os.Aifs.{socket_path}
use ai_m_os.Json.{Json, null, boolean, str, list, dict, Items, nil, cons, Fields, end, field}
use ai_m_os.AifsDaemon.Go.{Outcome, value, fault, panic}
use ai_m_os.AifsDaemon.Calls.{System, Slice, nil_slice, slice}
use ai_m_os.AifsDaemon.Volumes.{Volume, Snapshot}
use ai_m_os.AifsDaemon.Handle.{
  Request, Response, Payload, no_payload, one_volume, volumes, one_snapshot, snapshots, handle,
}

-- By the tags of the types.
module _ {F : Type 0} where
  unfoldable pub json_of_volume : Volume → Json F
  json_of_volume v =
      dict (field (codes "path") (str v.path) (field (codes "created_at") (str v.created_at) end))

  unfoldable pub json_of_snapshot : Snapshot → Json F
  json_of_snapshot s = dict (
      field (codes "name") (str s.name) (
        field (codes "path") (str s.path) (
          field (codes "volume") (str s.volume) (
            field (codes "created_at") (str s.created_at)
              (field (codes "read_only") (boolean s.read_only) end)))))

  abbrev pub items_of : {A : Type 0} → (A → Json F) → List A → Items F
  items_of f [] = nil
  items_of f (a ∷ rest) = cons (f a) (items_of f rest)

  abbrev pub json_of_slice : {A : Type 0} → (A → Json F) → Slice A → Json F
  json_of_slice f nil_slice = null
  json_of_slice f (slice elements) = list (items_of f elements)

  -- `omitempty` leaves out the data of an answer that has none.
  unfoldable pub data_fields : Payload → Fields F
  unfolding json_of_volume json_of_snapshot
  data_fields no_payload = end
  data_fields (one_volume v) = field (codes "data") (json_of_volume v) end
  data_fields (volumes vs) = field (codes "data") (json_of_slice json_of_volume vs) end
  data_fields (one_snapshot s) = field (codes "data") (json_of_snapshot s) end
  data_fields (snapshots ss) = field (codes "data") (json_of_slice json_of_snapshot ss) end

  unfoldable pub error_fields : Text → Fields F → Fields F
  error_fields [] rest = rest
  error_fields (c ∷ e) rest = field (codes "error") (str (c ∷ e)) rest

  -- What `json.NewEncoder(conn).Encode(r)` writes.
  unfoldable pub json_of : Response → Json F
  unfolding data_fields error_fields
  json_of r =
      dict (field (codes "ok") (boolean r.is_ok) (error_fields r.error (data_fields r.payload)))

-- The requests that the command line makes, by its keyword arguments.
pub data Sent {F : Type 0} (op : Text) : Fields F → Request → Type 0 where
  with_path :
      (path : Text)
      → Sent op
          (field (codes "path") (str path) end)
          (record { op = op; path = path; name = []; snap = [] })
  with_name :
      (path name : Text)
      → Sent op
          (field (codes "path") (str path) (field (codes "name") (str name) end))
          (record { op = op; path = path; name = name; snap = [] })
  with_both :
      (path snap : Text)
      → Sent op
          (field (codes "path") (str path) (field (codes "snap") (str snap) end))
          (record { op = op; path = path; name = []; snap = snap })
  with_snap :
      (snap : Text)
      → Sent op
          (field (codes "snap") (str snap) end)
          (record { op = op; path = []; name = []; snap = snap })

-- The machine of the daemon, what of its answer is still unread, and whether its process runs.
pub record Served (W : Type 0) : Type 0 where
  pub host : W
  pub unread : List Text
  pub runs : Bool

module _ {W : Type 0} (sys : System W) (decode : Text → Outcome Request) (encode : Response → Text)
    (pieces : Text → List Text) where
  abbrev pub answered : Outcome Response × W → Served W
  answered (value r, w) = record { host = w; unread = pieces (encode r); runs = true }
  answered (fault e, w) = record { host = w; unread = []; runs = true }
  answered (panic, w) = record { host = w; unread = []; runs = false }

  -- One connection at a time; a panic ends the process.
  abbrev pub peer : Sockets (Served W)
  peer = record {
    Sock = Unit;
    open_socket = λ s. (ok tt, s);
    set_timeout = λ _ seconds s. (ok tt, s);
    connect =
        λ _ path s. (if s.runs && text_eq path socket_path then ok tt else raised Exn.os_error, s);
    send_all = λ _ text s. (ok tt, answered (handle sys decode text s.host));
    recv = λ _ s. elim s.unread [
      | [] ↦ (ok [], s)
      | piece ∷ rest ↦ (ok piece, record s { unread = rest })
    ];
    close = λ _ s. (ok tt, record s { unread = [] });
  }

  -- What the two sides rely on: Python reads what Go writes and Go what Python writes, and a text
  -- arrives in pieces of which none is empty.
  pub record Speaks {F : Type 0} (cli : Cli (Served W) F) : Type 0 where
    pub decode_lem :
        (op : Text) (fields : Fields F) (req : Request)
        → Sent op fields req
        → decode (cli.dumps (dict (field (codes "op") (str op) fields)) ++ codes "\n") ≡ value req
    pub loads_lem : (r : Response) → cli.loads (encode r) ≡ ok (json_of r)
    pub pieces_lem : (text : Text) → concat (pieces text) ≡ text
    pub pieces-full : (text : Text) → All (λ piece. piece ≢ []) (pieces text)
    pub fuel_lem : (r : Response) → length (pieces (encode r)) < cli.fuel
