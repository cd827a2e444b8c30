-- ===== src/Examples/Volumes.antt =====
-- The AIFS daemon on a small disk.

use ai_m_os.Common.{
  ℕ, ◌≡◌, ◌≢◌, refl, ◌∙◌, ap, true, false, [], ◌∷◌, none, some, Text, codes, ◌⊎◌, arith,
}
use ai_m_os.Common.Str.{text_eq}
use ai_m_os.AifsDaemon.Go.{value}
use ai_m_os.AifsDaemon.Paths.{join, clean, trim_space}
use ai_m_os.AifsDaemon.Volumes.{Snapshot, take_snapshot, restore_snapshot, backup_of, btrfs_exec}
use ai_m_os.AifsDaemon.Parts.{IsCanonical, is_part}
use ai_m_os.AifsDaemon.Subvolumes.{rest_of, Same, moved}
use ai_m_os.AifsDaemon.Disk.{
  Disk, blank, put, folder, look, has, disk, btrfs_on, copy_on, delete_on, rename_on, keys,
  is_nested,
}
use ai_m_os.AifsDaemon.Disk.Laws.{disk-IsBtrfs}
use ai_m_os.AifsDaemon.Restore.Disk.{Free, IsRestored}
use ai_m_os.AifsDaemon.Restore.Ends.{restore_snapshot-IsRestored}
use ai_m_os.AifsDaemon.Restore.Refusals.{Faults, restore_snapshot-inside}
use ai_m_os.AifsDaemon.Restore.Taken.{take_snapshot_lem}
use ai_m_os.AifsDaemon.Folders

abbrev pub home : Text
home = codes "/home"

abbrev pub monday : Text
monday = codes "/home/.aifs-snapshots/monday"

-- A copy on another path.
abbrev pub copy : Text
copy = codes "/backup/monday"

abbrev pub machine : Disk
machine = put copy 5 (put home 7 blank)

pub home-IsCanonical : IsCanonical home
unfolding is_part text_eq
home-IsCanonical = record {
  first = codes "home";
  others = [];
  first-IsPart = refl;
  others-IsPart = tt;
  spelled = refl;
}

pub monday-IsCanonical : IsCanonical monday
unfolding is_part text_eq
monday-IsCanonical = record {
  first = codes "home";
  others = codes ".aifs-snapshots" ∷ codes "monday" ∷ [];
  first-IsPart = refl;
  others-IsPart = (refl, (refl, tt));
  spelled = refl;
}

copy-IsCanonical : IsCanonical copy
unfolding is_part text_eq
copy-IsCanonical = record {
  first = codes "backup";
  others = codes "monday" ∷ [];
  first-IsPart = refl;
  others-IsPart = (refl, tt);
  spelled = refl;
}

abbrev pub with_monday : Disk
with_monday = put monday 7 (folder (codes "/home/.aifs-snapshots") machine)

abbrev pub taken_monday : Snapshot
taken_monday = record {
  name = codes "monday";
  path = monday;
  volume = home;
  created_at = codes "2026-01-02T03:04:05Z";
  read_only = true;
}

pub takes_monday :
    take_snapshot disk home (codes "monday") machine ≡ (value taken_monday, with_monday)
unfolding take_snapshot btrfs_exec join clean btrfs_on copy_on look has text_eq rest_of trim_space
takes_monday = refl

restores_copy : (restore_snapshot disk copy home machine).0 ≡ value tt
unfolding restore_snapshot btrfs_exec btrfs_on copy_on delete_on rename_on look has keys is_nested
    text_eq rest_of
restores_copy = refl

-- What is not under the backup's name is none of the paths under it.
not_there :
    (q path : Text)
    → rest_of (backup_of home) q ≡ none
    → rest_of (backup_of home) path ≢ none
    → text_eq path q ≡ false
not_there q path apart under =
    Folders.text_eq-≢ path q λ e. under (ap (rest_of (backup_of home)) e ∙ apart)

machine-Free : Free (look machine) (backup_of home)
unfolding look rest_of
machine-Free path under =
    ground (arith, not_there copy path refl under, not_there home path refl under)

with_monday-Free : Free (look with_monday) (backup_of home)
unfolding look rest_of
with_monday-Free path under =
    ground (arith, not_there monday path refl under, machine-Free path under)

restore_snapshot-IsRestored_example :
    IsRestored
      (look machine)
      copy
      home
      (restore_snapshot disk copy home machine).0
      (look (restore_snapshot disk copy home machine).1)
unfolding look rest_of text_eq
restore_snapshot-IsRestored_example =
    restore_snapshot-IsRestored disk look has disk-IsBtrfs copy home home-IsCanonical
      copy-IsCanonical machine (7, refl) machine-Free refl

restore_snapshot-inside_example :
    Faults (restore_snapshot disk monday home with_monday).0
    × (Same (look with_monday) (look (restore_snapshot disk monday home with_monday).1)
        ⊎ Same
            (moved home (backup_of home) (look with_monday))
            (look (restore_snapshot disk monday home with_monday).1))
unfolding look rest_of text_eq
restore_snapshot-inside_example =
    restore_snapshot-inside disk look has disk-IsBtrfs monday home home-IsCanonical
      monday-IsCanonical with_monday (7, refl) (codes "/.aifs-snapshots/monday") refl
      with_monday-Free

take_snapshot_lem_example :
    (rest_of home monday ≢ none)
    × ((x : ℕ) × (look with_monday home ≡ some x) × (look with_monday monday ≡ some x))
unfolding has text_eq is_part
take_snapshot_lem_example =
    take_snapshot_lem disk look has disk-IsBtrfs home (codes "monday") home-IsCanonical refl machine
      with_monday taken_monday refl takes_monday
