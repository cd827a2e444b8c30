-- ===== src/AifsDaemon/Restore.antt =====
-- aifs/daemon/btrfs.go, `RestoreSnapshot`: its ways of ending, and what is then on the disk.
pub mod Disk
pub mod Ends
pub mod Refusals
pub mod Taken
use ai_m_os.Common.{
  ◌≡◌, refl, sym, subst, List, [], ◌∷◌, ◌++◌, Option, none, some, Text, codes, ◌⊎◌, inl, inr, arith,
}
use ai_m_os.AifsDaemon.Go.{Outcome, value, fault}
use ai_m_os.AifsDaemon.Paths.{trim_space}
use ai_m_os.AifsDaemon.Calls.{System}
use ai_m_os.AifsDaemon.Volumes.{restore_snapshot, backup_of, btrfs_exec}

abbrev pub copying : Text → Text → List Text
copying snap volume = codes "subvolume" ∷ codes "snapshot" ∷ snap ∷ volume ∷ []

abbrev pub deleting : Text → List Text
deleting p = codes "subvolume" ∷ codes "delete" ∷ p ∷ []

pub renamed_cases :
    {W : Type 0} (r : Option Text × W)
    → ((w' : W) × (r ≡ (none, w'))) ⊎ ((e : Text) × ((w' : W) × (r ≡ (some e, w'))))
renamed_cases (none, w') = inl (w', refl)
renamed_cases (some e, w') = inr (e, (w', refl))

pub btrfs_cases :
    {W : Type 0} (r : (Text × Option Text) × W)
    → ((out : Text) × ((w' : W) × (r ≡ ((out, none), w'))))
      ⊎ ((out : Text) × ((e : Text) × ((w' : W) × (r ≡ ((out, some e), w')))))
btrfs_cases ((out, none), w') = inl (out, (w', refl))
btrfs_cases ((out, some e), w') = inr (out, (e, (w', refl)))

module _ {W : Type 0} (sys : System W) where
  -- The four ways, by the calls that were made.
  pub data Restores (snap volume : Text) (w : W) : Outcome (Unit {0}) → W → Type 0 where
    not_set_aside :
        (e : Text) (w1 : W)
        → sys.rename volume (backup_of volume) w ≡ (some e, w1)
        → Restores snap volume w (fault (codes "rename volume to backup" ++ (codes ": " ++ e))) w1
    undone :
        (out e : Text) (w1 w2 : W)
        → sys.rename volume (backup_of volume) w ≡ (none, w1)
        → sys.btrfs (copying snap volume) w1 ≡ ((out, some e), w2)
        → Restores snap volume w
            (fault (
              codes "btrfs snapshot restore"
              ++ (codes ": " ++ (trim_space out ++ (codes ": " ++ e)))))
            (sys.rename (backup_of volume) volume w2).1
    left_over :
        (out out' e : Text) (w1 w2 w3 : W)
        → sys.rename volume (backup_of volume) w ≡ (none, w1)
        → sys.btrfs (copying snap volume) w1 ≡ ((out, none), w2)
        → sys.btrfs (deleting (backup_of volume)) w2 ≡ ((out', some e), w3)
        → Restores snap volume w
            (fault
              (codes "delete backup" ++ (codes ": " ++ (trim_space out' ++ (codes ": " ++ e)))))
            w3
    finished :
        (out out' : Text) (w1 w2 w3 : W)
        → sys.rename volume (backup_of volume) w ≡ (none, w1)
        → sys.btrfs (copying snap volume) w1 ≡ ((out, none), w2)
        → sys.btrfs (deleting (backup_of volume)) w2 ≡ ((out', none), w3)
        → Restores snap volume w (value tt) w3

  pub restore_snapshot-Restores :
      (snap volume : Text) (w : W)
      → Restores snap volume w
          (restore_snapshot sys snap volume w).0
          (restore_snapshot sys snap volume w).1
  unfolding restore_snapshot btrfs_exec
  restore_snapshot-Restores snap volume w =
      elim (renamed_cases (sys.rename volume (backup_of volume) w)) [
        | inr (e, (w1, h)) ↦ ends (fault _) w1 (ground (arith, h)) (not_set_aside e w1 h)
        | inl (w1, h) ↦ elim (btrfs_cases (sys.btrfs (copying snap volume) w1)) [
          | inr (out, (e, (w2, k))) ↦
              ends (fault _) (sys.rename (backup_of volume) volume w2).1 (ground (arith, h, k))
                (undone out e w1 w2 h k)
          | inl (out, (w2, k)) ↦ elim (btrfs_cases (sys.btrfs (deleting (backup_of volume)) w2)) [
            | inr (out', (e, (w3, l))) ↦
                ends (fault _) w3 (ground (arith, h, k, l)) (left_over out out' e w1 w2 w3 h k l)
            | inl (out', (w3, l)) ↦
                ends (value tt) w3 (ground (arith, h, k, l)) (finished out out' w1 w2 w3 h k l)
          ]
        ]
      ]
    where
      ends :
          (r : Outcome (Unit {0})) (w' : W)
          → restore_snapshot sys snap volume w ≡ (r, w')
          → Restores snap volume w r w'
          → Restores snap volume w
              (restore_snapshot sys snap volume w).0
              (restore_snapshot sys snap volume w).1
      ends r w' e run = subst (λ x. Restores snap volume w x.0 x.1) (sym e) run
