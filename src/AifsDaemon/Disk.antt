-- ===== src/AifsDaemon/Disk.antt =====
-- A disk on which the daemon can be run: what was done to it, the last first.
pub mod Laws
use ai_m_os.Common.{
  ℕ, Bool, true, false, not, ◌||◌, ◌&&◌, List, [], ◌∷◌, ◌++◌, map, Option, none, some, Text, codes,
  if◌then◌else◌,
}
use ai_m_os.Common.Lists.{any}
use ai_m_os.Common.Str.{text_eq}
use ai_m_os.AifsDaemon.Calls.{System, not_exist}
use ai_m_os.AifsDaemon.Subvolumes.{rest_of, Subvolumes, moved, with_at}

pub data Disk : Type 0 where
  blank : Disk
  put : Text → ℕ → Disk → Disk
  removed : Text → Disk → Disk
  renamed : Text → Text → Disk → Disk
  folder : Text → Disk → Disk

unfoldable pub look : Disk → Subvolumes ℕ
unfolding moved
look blank = λ path. none
look (put p v d) = with_at p (some v) (look d)
look (removed p d) = with_at p none (look d)
look (renamed a b d) = moved a b (look d)
look (folder p d) = look d

abbrev pub is_some : {A : Type 0} → Option A → Bool
is_some none = false
is_some (some _) = true

unfoldable pub has : Disk → Text → Bool
unfolding text_eq rest_of
has blank path = false
has (put p v d) path = text_eq path p || has d path
has (removed p d) path = not (text_eq path p) && has d path
has (renamed a b d) path = elim (rest_of b path) [
  | some rest ↦ has d (a ++ rest)
  | none ↦ elim (rest_of a path) [ some _ ↦ false | none ↦ has d path ]
]
has (folder p d) path = is_some (rest_of path p) || has d path

-- Where a path is after a renaming.
unfoldable pub carried : Text → Text → Text → Text
unfolding rest_of
carried a b path = elim (rest_of a path) [ some rest ↦ b ++ rest | none ↦ path ]

-- The paths where there may be a subvolume.
unfoldable pub keys : Disk → List Text
unfolding carried
keys blank = []
keys (put p v d) = p ∷ keys d
keys (removed p d) = keys d
keys (renamed a b d) = let ks = keys d in map (carried a b) ks ++ ks
keys (folder p d) = keys d

unfoldable pub is_nested : Disk → Text → Text → Bool
unfolding look rest_of text_eq
is_nested d p path = is_some (rest_of p path) && not (text_eq path p) && is_some (look d path)

unfoldable pub rename_on : Text → Text → Disk → Option Text × Disk
unfolding look rest_of has
rename_on a b d =
    if not (is_some (look d a))
    then (some (codes "no such file or directory"), d)
    else if is_some (rest_of b a) || has d b
    then (some (codes "file exists"), d)
    else (none, renamed a b d)

unfoldable pub copy_on : Text → Text → Disk → (Text × Option Text) × Disk
unfolding look has
copy_on from to d = elim (look d from) [
  | none ↦ ((codes "ERROR: not a subvolume", some (codes "exit status 1")), d)
  | some v ↦
      if has d to
      then ((codes "ERROR: file exists", some (codes "exit status 1")), d)
      else ((codes "Create a snapshot", none), put to v d)
]

unfoldable pub delete_on : Text → Disk → (Text × Option Text) × Disk
unfolding look keys is_nested
delete_on p d =
    if not (is_some (look d p))
    then ((codes "ERROR: not a subvolume", some (codes "exit status 1")), d)
    else if any (is_nested d p) (keys d)
    then ((codes "ERROR: Directory not empty", some (codes "exit status 1")), d)
    else ((codes "Delete subvolume", none), removed p d)

abbrev unknown : Disk → (Text × Option Text) × Disk
unknown d = (([], some (codes "exit status 1")), d)

-- `subvolume snapshot` and `subvolume delete`; the other commands fail.
unfoldable pub btrfs_on : List Text → Disk → (Text × Option Text) × Disk
unfolding copy_on delete_on text_eq
btrfs_on (_ ∷ command ∷ p ∷ []) d =
    if text_eq command (codes "delete") then delete_on p d else unknown d
btrfs_on (_ ∷ command ∷ from ∷ to ∷ []) d =
    if text_eq command (codes "snapshot") then copy_on from to d else unknown d
btrfs_on (_ ∷ _ ∷ _ ∷ from ∷ to ∷ []) d = copy_on from to d
btrfs_on _ d = unknown d

abbrev pub disk : System Disk
disk = record {
  mkdir_all = λ p d. (none, folder p d);
  rename = rename_on;
  read_dir = λ p d. (not_exist, d);
  btrfs = btrfs_on;
  now = λ d. (codes "2026-01-02T03:04:05Z", d);
  now_name = λ d. (codes "2026-01-02_03-04-05", d);
}
