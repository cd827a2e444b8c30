-- ===== src/AifsDaemon/Restore/Refusals.antt =====
-- aifs/daemon/btrfs.go, `RestoreSnapshot`: snapshots that it cannot restore.
use ai_m_os.Common.{◌≡◌, ◌≢◌, refl, subst, ◌++◌, none, some, Text, codes, ◌⊎◌, inl, Bool, arith}
use ai_m_os.AifsDaemon.Go.{Outcome, fault}
use ai_m_os.AifsDaemon.Calls.{System}
use ai_m_os.AifsDaemon.Volumes.{restore_snapshot, backup_of}
use ai_m_os.AifsDaemon.Parts.{IsCanonical}
use ai_m_os.AifsDaemon.Subvolumes.{rest_of, Subvolumes, moved, Same, IsVolume, IsBtrfs, Renames}
use ai_m_os.AifsDaemon.Folders
use ai_m_os.AifsDaemon.Swap
use ai_m_os.AifsDaemon.Restore.{
  Restores, not_set_aside, undone, left_over, finished, copying, deleting,
  restore_snapshot-Restores,
}
use ai_m_os.AifsDaemon.Restore.Disk
use ai_m_os.AifsDaemon.Restore.Disk.{Free, backup_of-IsCanonical}
use ai_m_os.AifsDaemon.Restore.Ends

abbrev pub Faults : Outcome (Unit {0}) → Type 0
Faults r = (e : Text) × (r ≡ fault e)

module _ {W : Type 0} (sys : System W) {V : Type 0} (subvols : W → Subvolumes V)
    (is_there : W → Text → Bool) (laws : IsBtrfs sys subvols is_there) (snap volume : Text)
    (clean_volume : IsCanonical volume) (clean_snap : IsCanonical snap) (w : W)
    (vol : IsVolume sys subvols is_there w volume) where
  abbrev aside : Subvolumes V
  aside = moved volume (backup_of volume) (subvols w)

  lost :
      (w1 w2 : W) (out rest : Text)
      → rest_of volume snap ≡ some rest
      → sys.rename volume (backup_of volume) w ≡ (none, w1)
      → sys.btrfs (copying snap volume) w1 ≢ ((out, none), w2)
  lost w1 w2 out rest inside e k =
      let got =
        Disk.copied sys subvols is_there laws snap volume clean_volume clean_snap w vol w1 w2 out e
          k in
      ground (
        arith,
        got.1,
        Folders.moved-from volume (backup_of volume) (subvols w) snap rest
            (Folders.rest_of-beside volume (codes "aifs-restore-backup") snap rest inside) inside,
      )

  inside_run :
      (r : Outcome (Unit {0})) (w' : W) (rest : Text)
      → rest_of volume snap ≡ some rest
      → Free (subvols w) (backup_of volume)
      → Restores sys snap volume w r w'
      → Faults r × (Same (subvols w) (subvols w') ⊎ Same aside (subvols w'))
  inside_run r w' rest inside free (not_set_aside e w1 h) = (
    (codes "rename volume to backup" ++ (codes ": " ++ e), refl),
    inl (
        subst (Renames sys subvols is_there volume (backup_of volume) w) h (
          laws.rename_lem volume (backup_of volume) w clean_volume
            (backup_of-IsCanonical volume clean_volume) vol)),
  )
  inside_run r w' rest inside free (undone out e w1 w2 h k) = (
    (_, refl),
    Ends.taken_back sys subvols is_there laws snap volume clean_volume clean_snap w vol w2 free (
        Disk.uncopied sys subvols is_there laws snap volume clean_volume clean_snap w vol w1 w2 out
          e h k),
  )
  inside_run r w' rest inside free (left_over out out' e w1 w2 w3 h k l) =
      absurd (lost w1 w2 out rest inside h k)
  inside_run r w' rest inside free (finished out out' w1 w2 w3 h k l) =
      absurd (lost w1 w2 out rest inside h k)

  -- Where the calls do what `IsBtrfs` says and both paths are clean, a snapshot that lies in the
  -- volume is not restored: the volume is renamed before the snapshot is looked for. If nothing had
  -- the backup's name the request ends with an error, and every subvolume is as before, or the
  -- volume with all in it has only the backup's name.
  pub restore_snapshot-inside :
      (rest : Text)
      → rest_of volume snap ≡ some rest
      → Free (subvols w) (backup_of volume)
      → Faults (restore_snapshot sys snap volume w).0
        × (Same (subvols w) (subvols (restore_snapshot sys snap volume w).1)
            ⊎ Same aside (subvols (restore_snapshot sys snap volume w).1))
  restore_snapshot-inside rest inside free =
      inside_run (restore_snapshot sys snap volume w).0 (restore_snapshot sys snap volume w).1 rest
        inside free (restore_snapshot-Restores sys snap volume w)

  -- What another subvolume in the volume does to the deletion of the backup.
  undeleted :
      (w1 w2 w3 : W) (out out' inner rest : Text)
      → rest_of volume inner ≡ some rest
      → inner ≢ volume
      → subvols w inner ≢ none
      → sys.rename volume (backup_of volume) w ≡ (none, w1)
      → sys.btrfs (copying snap volume) w1 ≡ ((out, none), w2)
      → sys.btrfs (deleting (backup_of volume)) w2 ≢ ((out', none), w3)
  undeleted w1 w2 w3 out out' inner rest inside apart full e k l =
      let got =
        Disk.copied sys subvols is_there laws snap volume clean_volume clean_snap w vol w1 w2 out e
          k in
      let gone =
        Ends.deleted sys subvols is_there laws snap volume clean_volume clean_snap w vol w2 w3 out'
          l in
      full (
        Swap.was_empty volume (codes "aifs-restore-backup") (subvols w) (subvols w2) got.0 got.2
          gone.0 inner rest (Folders.text_eq-≢ inner volume apart) inside)

  -- A volume with another subvolume in it is never restored to an end: the backup is then not
  -- deleted, and the request ends with an error.
  pub restore_snapshot-nested :
      (inner rest : Text)
      → rest_of volume inner ≡ some rest
      → inner ≢ volume
      → subvols w inner ≢ none
      → Faults (restore_snapshot sys snap volume w).0
  restore_snapshot-nested inner rest inside apart full =
      go (restore_snapshot sys snap volume w).0 (restore_snapshot sys snap volume w).1
        (restore_snapshot-Restores sys snap volume w)
    where
      go : (r : Outcome (Unit {0})) (w' : W) → Restores sys snap volume w r w' → Faults r
      go r w' (not_set_aside e w1 h) = (_, refl)
      go r w' (undone out e w1 w2 h k) = (_, refl)
      go r w' (left_over out out' e w1 w2 w3 h k l) = (_, refl)
      go r w' (finished out out' w1 w2 w3 h k l) =
          absurd (undeleted w1 w2 w3 out out' inner rest inside apart full h k l)
