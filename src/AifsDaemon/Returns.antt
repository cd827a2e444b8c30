-- ===== src/AifsDaemon/Returns.antt =====
-- aifs/daemon/btrfs.go: the operations that answer without data return, and do not panic.
use ai_m_os.Common.{◌≡◌, refl, Text, codes, ◌++◌, ◌⊎◌, inl, inr, arith}
use ai_m_os.AifsDaemon.Go.{Outcome, value, fault}
use ai_m_os.AifsDaemon.Calls.{System}
use ai_m_os.AifsDaemon.Paths.{trim_space}
use ai_m_os.AifsDaemon.Volumes.{btrfs_exec, delete_volume, restore_snapshot, delete_snapshot}
use ai_m_os.AifsDaemon.Restore.{
  btrfs_cases, Restores, not_set_aside, undone, left_over, finished, restore_snapshot-Restores,
  deleting,
}

-- A call that returns, with a value or an error.
abbrev pub Returns : {W : Type 0} → Outcome (Unit {0}) × W → Type 0
Returns {W} r = ((w' : W) × (r ≡ (value tt, w'))) ⊎ ((e : Text) × ((w' : W) × (r ≡ (fault e, w'))))

module _ {W : Type 0} (sys : System W) where
  pub delete_volume-Returns : (path : Text) (w : W) → Returns (delete_volume sys path w)
  unfolding delete_volume btrfs_exec
  delete_volume-Returns path w = elim (btrfs_cases (sys.btrfs (deleting path) w)) [
    | inl (out, (w', h)) ↦ inl (w', ground (arith, h))
    | inr (out, (e, (w', h))) ↦ inr (
      (codes "btrfs subvolume delete" ++ (codes ": " ++ (trim_space out ++ (codes ": " ++ e)))),
      (w', ground (arith, h)),
    )
  ]

  pub delete_snapshot-Returns : (snap : Text) (w : W) → Returns (delete_snapshot sys snap w)
  unfolding delete_snapshot btrfs_exec
  delete_snapshot-Returns snap w = elim (btrfs_cases (sys.btrfs (deleting snap) w)) [
    | inl (out, (w', h)) ↦ inl (w', ground (arith, h))
    | inr (out, (e, (w', h))) ↦ inr (
      (codes "btrfs snapshot delete" ++ (codes ": " ++ (trim_space out ++ (codes ": " ++ e)))),
      (w', ground (arith, h)),
    )
  ]

  pub restore_snapshot-Returns :
      (snap volume : Text) (w : W) → Returns (restore_snapshot sys snap volume w)
  restore_snapshot-Returns snap volume w =
      go (restore_snapshot sys snap volume w).0 (restore_snapshot sys snap volume w).1
        (restore_snapshot-Restores sys snap volume w)
    where
      go : (r : Outcome (Unit {0})) (w' : W) → Restores sys snap volume w r w' → Returns (r, w')
      go r w' (not_set_aside e w1 h) = inr (_, (_, refl))
      go r w' (undone out e w1 w2 h k) = inr (_, (_, refl))
      go r w' (left_over out out' e w1 w2 w3 h k l) = inr (_, (_, refl))
      go r w' (finished out out' w1 w2 w3 h k l) = inl (_, refl)
