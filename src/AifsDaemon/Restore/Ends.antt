-- ===== src/AifsDaemon/Restore/Ends.antt =====
-- aifs/daemon/btrfs.go, `RestoreSnapshot`: the disk after a success and after an error.
use mathlib.Core.List.{append-nil}
use ai_m_os.Common.{
  ◌≡◌, ◌≢◌, sym, ◌∙◌, ap, subst, [], none, some, Text, codes, ◌⊎◌, inl, inr, Bool, arith,
}
use ai_m_os.AifsDaemon.Go.{Outcome}
use ai_m_os.AifsDaemon.Calls.{System}
use ai_m_os.AifsDaemon.Volumes.{restore_snapshot, backup_of}
use ai_m_os.AifsDaemon.Parts.{IsCanonical}
use ai_m_os.AifsDaemon.Subvolumes.{
  rest_of, Subvolumes, moved, with_at, Same, IsVolume, IsBtrfs, Deletes, Renames,
}
use ai_m_os.AifsDaemon.Folders
use ai_m_os.AifsDaemon.Swap
use ai_m_os.AifsDaemon.Restore.{
  Restores, not_set_aside, undone, left_over, finished, copying, deleting,
  restore_snapshot-Restores, renamed_cases,
}
use ai_m_os.AifsDaemon.Restore.Disk
use ai_m_os.AifsDaemon.Restore.Disk.{Free, IsRestored, backup_of-IsCanonical}

module _ {W : Type 0} (sys : System W) {V : Type 0} (subvols : W → Subvolumes V)
    (is_there : W → Text → Bool) (laws : IsBtrfs sys subvols is_there) (snap volume : Text)
    (clean_volume : IsCanonical volume) (clean_snap : IsCanonical snap) (w : W)
    (vol : IsVolume sys subvols is_there w volume) where
  abbrev aside : Subvolumes V
  aside = moved volume (backup_of volume) (subvols w)

  aside-backup : aside (backup_of volume) ≡ some vol.0
  aside-backup =
      Folders.moved-to volume (backup_of volume) (subvols w) (backup_of volume) []
        (Folders.rest_of_refl (backup_of volume))
      ∙ ap (subvols w) (append-nil volume)
      ∙ vol.1

  -- The volume gets its name back, or keeps the backup's.
  pub taken_back :
      (w2 : W)
      → Free (subvols w) (backup_of volume)
      → Same aside (subvols w2)
      → Same (subvols w) (subvols (sys.rename (backup_of volume) volume w2).1)
        ⊎ Same aside (subvols (sys.rename (backup_of volume) volume w2).1)
  taken_back w2 free same = elim (renamed_cases (sys.rename (backup_of volume) volume w2)) [
    | inl (w3, e) ↦ inl λ q.
        ap (λ r. subvols r.1 q) e
        ∙ (subst (Renames sys subvols is_there (backup_of volume) volume w2) e law).0 q
        ∙ Folders.moved-Same (backup_of volume) volume aside (subvols w2) same q
        ∙ Folders.moved_back volume (codes ".aifs-restore-backup") (subvols w) free q
    | inr (x, (w3, e)) ↦ inr λ q.
        ap (λ r. subvols r.1 q) e
        ∙ subst (Renames sys subvols is_there (backup_of volume) volume w2) e law q
        ∙ same q
  ]
    where
      law :
          Renames sys subvols is_there
            (backup_of volume)
            volume
            w2
            (sys.rename (backup_of volume) volume w2)
      law =
          laws.rename_lem (backup_of volume) volume w2 (backup_of-IsCanonical volume clean_volume)
            clean_volume (vol.0, same (backup_of volume) ∙ aside-backup)

  -- What a backup that was deleted says of the volume.
  abbrev pub Deletion : W → W → Type 0
  Deletion w2 w3 =
      ((path : Text)
        → rest_of (backup_of volume) path ≢ none
        → path ≢ backup_of volume
        → subvols w2 path ≡ none)
      × Same (with_at (backup_of volume) none (subvols w2)) (subvols w3)

  pub deleted :
      (w2 w3 : W) (out : Text)
      → sys.btrfs (deleting (backup_of volume)) w2 ≡ ((out, none), w3)
      → Deletion w2 w3
  deleted w2 w3 out e =
      subst (Deletes sys subvols is_there (backup_of volume) w2) e
        (laws.delete_lem (backup_of volume) w2 (backup_of-IsCanonical volume clean_volume))

  kept :
      (w2 w3 : W) (out e : Text)
      → sys.btrfs (deleting (backup_of volume)) w2 ≡ ((out, some e), w3)
      → Same (subvols w2) (subvols w3)
  kept w2 w3 out e h =
      subst (Deletes sys subvols is_there (backup_of volume) w2) h
        (laws.delete_lem (backup_of volume) w2 (backup_of-IsCanonical volume clean_volume))

  module _ (free : Free (subvols w) (backup_of volume))
      (beside : rest_of (backup_of volume) snap ≡ none) where
    -- The snapshot, as it was before.
    source :
        (w1 w2 : W) (out : Text)
        → sys.rename volume (backup_of volume) w ≡ (none, w1)
        → sys.btrfs (copying snap volume) w1 ≡ ((out, none), w2)
        → (x : V) × (subvols w snap ≡ some x) × Same (with_at volume (some x) aside) (subvols w2)
    source w1 w2 out e k =
        let got =
          Disk.copied sys subvols is_there laws snap volume clean_volume clean_snap w vol w1 w2 out
            e k in
        (
          got.0,
          (Disk.aside-source sys subvols is_there laws snap volume clean_volume clean_snap w vol
              got.0 beside got.1).1,
          got.2,
        )

    ends :
        (r : Outcome (Unit {0})) (w' : W)
        → Restores sys snap volume w r w'
        → IsRestored (subvols w) snap volume r (subvols w')
    unfolding IsRestored
    ends r w' (not_set_aside e w1 h) = inl (
        inl (
          subst (Renames sys subvols is_there volume (backup_of volume) w) h (
            laws.rename_lem volume (backup_of volume) w clean_volume
              (backup_of-IsCanonical volume clean_volume) vol)))
    ends r w' (undone out e w1 w2 h k) = inl (
        taken_back w2 free (
          Disk.uncopied sys subvols is_there laws snap volume clean_volume clean_snap w vol w1 w2
            out e h k))
    ends r w' (left_over out out' e w1 w2 w3 h k l) =
        let got = source w1 w2 out h k in
        inr (
          (λ q. ground (arith, got.1, q)),
          λ q. kept w2 w3 out' e l q ∙ got.2 q ∙ ap (λ v. with_at volume v aside q) (sym got.1),
        )
    ends r w' (finished out out' w1 w2 w3 h k l) =
        let got = source w1 w2 out h k in
        let gone = deleted w2 w3 out' l in
        (
          (λ q. ground (arith, got.1, q)),
          λ q.
              Swap.swapped volume (codes "aifs-restore-backup") (subvols w) (subvols w2) got.0 got.2
                gone.0 (subvols w3) gone.1 free q
              ∙ ap (λ v. with_at volume v (subvols w) q) (sym got.1),
        )

    -- Where the calls do what `IsBtrfs` says, both paths are clean, the snapshot's is not at or under
    -- the backup's, and nothing is there, `RestoreSnapshot` of a volume does not panic. After a
    -- success the volume is the snapshot, and every other subvolume is as before. After an error all
    -- is as before, or the volume has only its backup's name, or it is the snapshot beside the
    -- backup.
    pub restore_snapshot-IsRestored :
        IsRestored
          (subvols w)
          snap
          volume
          (restore_snapshot sys snap volume w).0
          (subvols (restore_snapshot sys snap volume w).1)
    restore_snapshot-IsRestored =
        ends (restore_snapshot sys snap volume w).0 (restore_snapshot sys snap volume w).1
          (restore_snapshot-Restores sys snap volume w)
