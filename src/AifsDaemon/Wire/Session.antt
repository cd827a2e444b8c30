-- ===== src/AifsDaemon/Wire/Session.antt =====
-- `aifs snap`, `aifs list` and then `aifs restore`, up to the disk.
use mathlib.Core.List.{append-nil, append_assoc}
use ai_m_os.Common.{
  ◌≡◌, sym, ap, subst, Bool, true, false, List, [], ◌∷◌, ◌++◌, Text, codes, Exn, ok, raised, arith,
}
use ai_m_os.Common.Str.{text_eq, lower}
use ai_m_os.Aifs.{
  Cli, Output, out, err, run, dispatch, commands, cmd_snap, cmd_list, print, fmt_time, send,
  subscript, get_of, print_paths, list_items,
}
use ai_m_os.Json
use ai_m_os.Json.{Json, Fields, end, field, str, is_true}
use ai_m_os.AifsDaemon.Go.{Outcome, value}
use ai_m_os.AifsDaemon.Calls.{System, Slice, nil_slice, slice}
use ai_m_os.AifsDaemon.Volumes.{Snapshot, Volume, take_snapshot, list_volumes, restore_snapshot}
use ai_m_os.AifsDaemon.Handle.{Request, Response, one_snapshot, volumes, done, answer, respond}
use ai_m_os.AifsDaemon.Wire.{
  with_name, with_path, Served, Speaks, json_of, data_fields, error_fields, json_of_snapshot,
  json_of_volume, items_of,
}
use ai_m_os.AifsDaemon.Wire.Told.{idle, send-answer, require_ok-done, restore, IsTold, shown}
use ai_m_os.AifsDaemon.Wire.Exchange.{facing}
use ai_m_os.AifsDaemon.Wire.Confirmed.{run-Asks}
use ai_m_os.AifsDaemon.Subvolumes.{Subvolumes, IsBtrfs}
use ai_m_os.AifsDaemon.Parts.{IsCanonical, IsPart}
use ai_m_os.AifsDaemon.Restore.Taken.{snapshot_path, restore_snapshot-take_snapshot}

-- What `aifs snap` prints of a snapshot.
abbrev pub snapshot_line : {W F : Type 0} → Cli W F → Snapshot → Text
snapshot_line cli s =
    codes "^ Snapshot: "
    ++ s.name
    ++ codes "\n  Path:      "
    ++ s.path
    ++ codes "\n  Created:   "
    ++ cli.str_of (fmt_time cli (str s.created_at))

-- What `aifs list` prints of the volumes.
abbrev volume_lines : List Volume → List Output
volume_lines [] = []
volume_lines (v ∷ vs) = out v.path ∷ volume_lines vs

abbrev pub listing : Slice Volume → List Output
listing nil_slice = out (codes "No volumes found.") ∷ []
listing (slice []) = out (codes "No volumes found.") ∷ []
listing (slice (v ∷ vs)) = volume_lines (v ∷ vs)

module _ {W F : Type 0} (sys : System W) (decode : Text → Outcome Request)
    (encode : Response → Text) (pieces : Text → List Text) (cli : Cli (Served W) F)
    (speaks : Speaks sys decode encode pieces cli)
    (plain : (e : Text) → cli.str_of (str e) ≡ e) where
  abbrev user : Cli (Served W) F
  user = facing sys decode encode pieces cli

  run-snap :
      (volume name : Text) (more : List Text) (w w' : W) (s : Snapshot) (printed : List Output)
      → take_snapshot sys volume name w ≡ (value s, w')
      → run user (codes "snap" ∷ volume ∷ name ∷ more) (idle w, printed)
        ≡ (ok tt, (idle w', printed ++ out (snapshot_line cli s) ∷ []))
  unfolding run dispatch commands text_eq cmd_snap answer respond print subscript json_of
      data_fields error_fields json_of_snapshot Json.get fmt_time
  run-snap volume name more w w' s printed e = ground (
    arith,
    send-answer sys decode encode pieces cli speaks plain (codes "snapshot")
        (field (codes "path") (str volume) (field (codes "name") (str name) end))
        (record { op = codes "snapshot"; path = volume; name = name; snap = [] }) w w'
        (done (one_snapshot s)) printed (with_name volume name) (ground (arith, e)),
    require_ok-done sys decode encode pieces cli speaks plain (one_snapshot s) (idle w', printed),
    plain s.name,
    plain s.path,
  )

  print_paths-items_of :
      (vs : List Volume) (w : Served W) (printed : List Output)
      → print_paths user (items_of json_of_volume vs) (w, printed)
        ≡ (ok tt, (w, printed ++ volume_lines vs))
  unfolding print_paths print subscript json_of_volume Json.get text_eq
  print_paths-items_of [] w printed = ap (λ l. (ok tt, (w, l))) (sym (append-nil printed))
  print_paths-items_of (v ∷ vs) w printed = ground (
    arith,
    plain v.path,
    print_paths-items_of vs w (printed ++ out v.path ∷ []),
    append_assoc printed (out v.path ∷ []) (volume_lines vs),
  )

  -- `list_volumes` asked for and its answer read.
  sent_list :
      (root : Text) (w w' : W) (vs : Slice Volume) (printed : List Output)
      → list_volumes sys root w ≡ (value vs, w')
      → send user (codes "list_volumes") (field (codes "path") (str root) end) (idle w, printed)
        ≡ (ok (json_of (done (volumes vs))), (idle w', printed))
  unfolding answer respond text_eq
  sent_list root w w' vs printed e =
      send-answer sys decode encode pieces cli speaks plain (codes "list_volumes")
        (field (codes "path") (str root) end)
        (record { op = codes "list_volumes"; path = root; name = []; snap = [] }) w w'
        (done (volumes vs)) printed (with_path root) (ground (arith, e))

  -- The daemon runs, each side reads what the other writes, and `str` of a text is the text: if the
  -- daemon lists volumes, `aifs list` prints the path of each, in their order, or that there are
  -- none, and ends in order.
  pub run-list :
      (root : Text) (more : List Text) (w w' : W) (vs : Slice Volume) (printed : List Output)
      → list_volumes sys root w ≡ (value vs, w')
      → run user (codes "list" ∷ root ∷ more) (idle w, printed)
        ≡ (ok tt, (idle w', printed ++ listing vs))
  unfolding run dispatch commands text_eq cmd_list print get_of json_of data_fields error_fields
      Json.get is_true list_items
  run-list root more w w' nil_slice printed e = ground (
    arith,
    sent_list root w w' nil_slice printed e,
    require_ok-done sys decode encode pieces cli speaks plain (volumes nil_slice)
        (idle w', printed),
  )
  run-list root more w w' (slice []) printed e = ground (
    arith,
    sent_list root w w' (slice []) printed e,
    require_ok-done sys decode encode pieces cli speaks plain (volumes (slice []))
        (idle w', printed),
  )
  run-list root more w w' (slice (v ∷ vs)) printed e = ground (
    arith,
    sent_list root w w' (slice (v ∷ vs)) printed e,
    require_ok-done sys decode encode pieces cli speaks plain (volumes (slice (v ∷ vs)))
        (idle w', printed),
    print_paths-items_of (v ∷ vs) (idle w') printed,
  )

  -- The daemon runs, each side reads what the other writes, `str` of a text is the text, the calls do
  -- what `IsBtrfs` says, and the paths of the volume and of the snapshot to restore are clean: absolute,
  -- with nothing for `filepath.Clean` to change, and not the root. If the daemon takes a snapshot of
  -- the volume under a new and plain name, `aifs snap` prints its name and path and ends in order. An
  -- `aifs restore` of the volume that comes next, from this snapshot or from another at a clean path,
  -- prints an error and exits with 1, although its question is answered by y or Y.
  pub run-restore_after_snap :
      {V : Type 0} (subvols : W → Subvolumes V) (is_there : W → Text → Bool)
      (laws : IsBtrfs sys subvols is_there) (volume name snap reply : Text) (w w' : W)
      (s : Snapshot) (printed : List Output)
      → IsCanonical volume
      → IsPart name
      → IsCanonical snap
      → is_there w (snapshot_path volume name) ≡ false
      → take_snapshot sys volume name w ≡ (value s, w')
      → text_eq (lower reply) (codes "y") ≡ true
      → ((prompt : Text) → cli.input prompt (idle w') ≡ (ok reply, idle w'))
      → (run user (codes "snap" ∷ volume ∷ name ∷ []) (idle w, printed)
          ≡ (ok tt, (idle w', printed ++ out (snapshot_line cli s) ∷ [])))
        × ((e : Text) × (run user
                (codes "restore" ∷ volume ∷ snap ∷ [])
                (idle w', printed ++ out (snapshot_line cli s) ∷ [])
              ≡ (
                raised (Exn.system_exit 1),
                (
                  idle (restore_snapshot sys snap volume w').1,
                  (printed ++ out (snapshot_line cli s) ∷ [])
                      ++ err (codes "error: " ++ shown e) ∷ [],
                ),
              )))
  unfolding IsTold
  run-restore_after_snap subvols is_there laws volume name snap reply w w' s printed cv pn cs new
        taken agrees asked =
      let failed =
        restore_snapshot-take_snapshot sys subvols is_there laws volume name cv pn w w' s new taken
          snap cs in
      let shows = printed ++ out (snapshot_line cli s) ∷ [] in
      let end = run user (codes "restore" ∷ volume ∷ snap ∷ []) (idle w', shows) in
      (
        run-snap volume name [] w w' s printed taken,
        (
          failed.0,
          subst
              (λ r.
                IsTold (codes "^ Restored: " ++ volume ++ codes "  <- " ++ snap) shows r
                  (restore_snapshot sys snap volume w').1 end)
              failed.1
              (run-Asks sys decode encode pieces cli speaks plain reply agrees w' shows asked
                (codes "restore" ∷ volume ∷ snap ∷ []) (restore_snapshot sys snap volume)
                (codes "^ Restored: " ++ volume ++ codes "  <- " ++ snap) (restore volume snap [])),
        ),
      )
