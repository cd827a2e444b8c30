-- ===== src/Client/Receive.antt =====
-- The receive loop against a peer that sends its chunks and closes.
use mathlib.Core.List.{append-nil, append_assoc}
use ai_m_os.Common.{
  ℕ, zero, suc, ◌<◌, ◌≡◌, ◌≢◌, refl, List, [], ◌∷◌, ◌++◌, Text, ok, raised, Result, Exn,
  is_exception, Bool, false, Option-cases, inl, inr, arith,
}
use ai_m_os.Common.Lists.{length}
use ai_m_os.Client.{Sockets, recv_all, read_daemon, socket_path}
use ai_m_os.Machine.{Os}
use ai_m_os.Json.{Json}

abbrev pub concat : List Text → Text
concat [] = []
concat (c ∷ cs) = c ++ concat cs

module _ {W : Type 0} (net : Sockets W) (s : net.Sock) where
  -- The peer sends these chunks, none of them empty, and closes.
  abbrev pub Delivers : List Text → W → W → Type 0
  Delivers [] w w' = net.recv s w ≡ (ok [], w')
  Delivers (c ∷ cs) w w' = (c ≢ []) × ((v : W) × (net.recv s w ≡ (ok c, v)) × Delivers cs v w')

  -- If the peer sends these chunks, none of them empty, and closes, then with more calls than
  -- chunks the loop ends, and has every byte in order behind those that it had.
  pub recv_all-concat :
      (fuel : ℕ) (chunks : List Text) (acc : Text) (w w' : W)
      → length chunks < fuel
      → Delivers chunks w w'
      → recv_all net fuel s acc w ≡ (ok (acc ++ concat chunks), w')
  unfolding recv_all
  recv_all-concat zero chunks acc w w' h d = elim h [ ]
  recv_all-concat (suc fuel) [] acc w w' h d = ground (arith, append-nil acc)
  recv_all-concat (suc fuel) ([] ∷ cs) acc w w' h (full, d) = absurd (full refl)
  recv_all-concat (suc fuel) ((b ∷ c) ∷ cs) acc w w' h (full, (v, e, d)) = ground (
    arith,
    recv_all-concat fuel cs (acc ++ b ∷ c) v w' (omega arith) d,
    append_assoc acc (b ∷ c) (concat cs),
  )

-- Where the test of the path returns, no `Exception` leaves `read_daemon`, whatever the socket, the
-- daemon and its answer do.
pub read_daemon-raised :
    {W F : Type 0} (net : Sockets W) (os : Os W) (json_loads : Text → Result (Json F)) (fuel : ℕ)
    (name : Text) (w : W) (e : Exn)
    → ((p : Text) → (b : Bool) × (os.path_exists p w ≡ (ok b, w)))
    → (read_daemon net os json_loads fuel name w).0 ≡ raised e
    → is_exception e ≡ false
unfolding read_daemon
read_daemon-raised net os json_loads fuel name w e returns h =
    elim (Option-cases (socket_path name)) [
      | inl missing ↦ ground arith
      | inr (path, found) ↦ ground (arith, returns path)
    ]
