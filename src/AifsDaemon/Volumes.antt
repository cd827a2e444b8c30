-- ===== src/AifsDaemon/Volumes.antt =====
-- aifs/daemon/btrfs.go. The program `btrfs` and the system calls are an interface, of Calls.antt.
use ai_m_os.Common.{
  Bool, true, false, not, List, [], ◌∷◌, ◌++◌, none, some, Text, codes, if◌then◌else◌,
}
use ai_m_os.Common.Lists.{get_elem?}
use ai_m_os.Common.Str.{text_eq, has_part, split_on}
use ai_m_os.AifsDaemon.Go.{G, Outcome, value, fault, panic, ◌>>=◌, ◌>>◌, pure}
use ai_m_os.AifsDaemon.Calls.{
  System, DirEntry, entries, not_exist, unreadable, Slice, slice, appended, reads, failing, ignore,
}
use ai_m_os.AifsDaemon.Paths.{trim_space, fields, join, dir}

pub record Volume : Type 0 where
  pub path : Text
  pub created_at : Text

pub record Snapshot : Type 0 where
  pub name : Text
  pub path : Text
  pub volume : Text
  pub created_at : Text
  pub read_only : Bool

abbrev pub snapshot_dir : Text
snapshot_dir = codes ".aifs-snapshots"

abbrev pub backup_of : Text → Text
backup_of volume = volume ++ codes ".aifs-restore-backup"

module _ {W : Type 0} (sys : System W) where
  -- `btrfsExec`, and the `fmt.Errorf("prefix: %s: %w", out, err)` that all callers make of an error
  unfoldable pub btrfs_exec : Text → List Text → G W Text
  unfolding trim_space
  btrfs_exec prefix args w =
      let ((out, err), w') = sys.btrfs args w in
      elim err [
        | none ↦ (value (trim_space out), w')
        | some e ↦ (fault (prefix ++ (codes ": " ++ (trim_space out ++ (codes ": " ++ e)))), w')
      ]

  unfoldable pub create_volume : Text → G W Volume
  unfolding btrfs_exec join dir
  create_volume path = do
    failing (codes "mkdir parent") (sys.mkdir_all (dir path))
    btrfs_exec (codes "btrfs subvolume create") (codes "subvolume" ∷ codes "create" ∷ path ∷ [])
    failing (codes "mkdir snapshots dir") (sys.mkdir_all (join path snapshot_dir))
    now ← reads sys.now
    pure (record { path = path; created_at = now })

  unfoldable pub delete_volume : Text → G W (Unit {0})
  unfolding btrfs_exec
  delete_volume path = do
    btrfs_exec (codes "btrfs subvolume delete") (codes "subvolume" ∷ codes "delete" ∷ path ∷ [])
    pure tt

  -- One line of `btrfs subvolume list`: a volume, if it has nine fields and is no snapshot.
  unfoldable pub volume_of_line : Text → Text → List Volume
  unfolding fields join has_part
  volume_of_line root line = elim (get_elem? (fields line) 8) [
    | none ↦ []
    | some part ↦
        let p = join root part in
        if has_part p snapshot_dir then [] else record { path = p; created_at = [] } ∷ []
  ]

  unfoldable pub volumes_of_lines : Text → List Text → List Volume
  unfolding volume_of_line
  volumes_of_lines root [] = []
  volumes_of_lines root (line ∷ lines) = volume_of_line root line ++ volumes_of_lines root lines

  unfoldable pub list_volumes : Text → G W (Slice Volume)
  unfolding btrfs_exec volumes_of_lines split_on appended
  list_volumes root = do
    out ←
        btrfs_exec (codes "btrfs subvolume list")
          (codes "subvolume" ∷ codes "list" ∷ codes "-o" ∷ root ∷ [])
    pure (appended (volumes_of_lines root (split_on b'\n' out)))

  unfoldable pub take_snapshot : Text → Text → G W Snapshot
  unfolding btrfs_exec join
  take_snapshot volume given = do
    name ← elim given as (λ x. G W Text) [ [] ↦ reads sys.now_name | c ∷ s ↦ pure (c ∷ s) ]
    failing (codes "mkdir snapshots") (sys.mkdir_all (join volume snapshot_dir))
    let path = join (join volume snapshot_dir) name
    btrfs_exec (codes "btrfs snapshot")
        (codes "subvolume" ∷ codes "snapshot" ∷ codes "-r" ∷ volume ∷ path ∷ [])
    now ← reads sys.now
    pure (record { name = name; path = path; volume = volume; created_at = now; read_only = true })

  -- The loop of `ListSnapshots`; a `nil` for `info` is dereferenced.
  unfoldable pub snapshots_of : Text → Text → List DirEntry → Outcome (List Snapshot)
  unfolding join
  snapshots_of volume snap_dir [] = value []
  snapshots_of volume snap_dir (e ∷ es) =
      let rest = snapshots_of volume snap_dir es in
      if e.is_dir
      then elim e.mod_time [
        | none ↦ panic
        | some time ↦ elim rest [
          | value snaps ↦ value (
              record {
                name = e.name;
                path = join snap_dir e.name;
                volume = volume;
                created_at = time;
                read_only = true;
              }
              ∷ snaps)
          | fault x ↦ fault x
          | panic ↦ panic
        ]
      ]
      else rest

  unfoldable pub list_snapshots : Text → G W (Slice Snapshot)
  unfolding snapshots_of join appended
  list_snapshots volume w =
      let snap_dir = join volume snapshot_dir in
      let (listing, w') = sys.read_dir snap_dir w in
      elim listing [
        | entries es ↦ elim (snapshots_of volume snap_dir es) [
          | value snaps ↦ (value (appended snaps), w')
          | fault e ↦ (fault e, w')
          | panic ↦ (panic, w')
        ]
        | not_exist ↦ (value (slice []), w')
        | unreadable e ↦ (fault (codes "readdir: " ++ e), w')
      ]

  unfoldable pub restore_snapshot : Text → Text → G W (Unit {0})
  unfolding btrfs_exec
  restore_snapshot snap volume = do
    failing (codes "rename volume to backup") (sys.rename volume (backup_of volume))
    λ w.
        let (r, w') =
          btrfs_exec (codes "btrfs snapshot restore")
            (codes "subvolume" ∷ codes "snapshot" ∷ snap ∷ volume ∷ []) w in
        elim r [
          | value _ ↦
              (do
                btrfs_exec (codes "delete backup")
                    (codes "subvolume" ∷ codes "delete" ∷ backup_of volume ∷ [])
                pure tt)
                w'
          | fault e ↦ (fault e, ignore (sys.rename (backup_of volume) volume) w')
          | panic ↦ (panic, w')
        ]

  unfoldable pub delete_snapshot : Text → G W (Unit {0})
  unfolding btrfs_exec
  delete_snapshot snap = do
    btrfs_exec (codes "btrfs snapshot delete") (codes "subvolume" ∷ codes "delete" ∷ snap ∷ [])
    pure tt

  -- No caller of the package uses it.
  unfoldable pub volume_exists : Text → W → Bool × W
  unfolding trim_space
  volume_exists path w =
      let ((out, err), w') = sys.btrfs (codes "subvolume" ∷ codes "show" ∷ path ∷ []) w in
      (elim err [ none ↦ not (text_eq (trim_space out) []) | some _ ↦ false ], w')
