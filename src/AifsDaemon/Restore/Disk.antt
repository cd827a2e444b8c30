-- ===== src/AifsDaemon/Restore/Disk.antt =====
-- What `RestoreSnapshot` leaves on the disk.

use ai_m_os.Common.{
  ◌≡◌, ◌≢◌, refl, sym, ◌∙◌, ap, subst, [], ◌∷◌, ◌++◌, Option, none, some, Text, codes, ◌⊎◌, inl,
  inr, Bool, Option-cases, false, arith, if◌then◌else◌,
}
use ai_m_os.Common.Str.{text_eq}
use ai_m_os.AifsDaemon.Go.{Outcome, value, fault, panic}
use ai_m_os.AifsDaemon.Calls.{System}
use ai_m_os.AifsDaemon.Volumes.{backup_of}
use ai_m_os.AifsDaemon.Parts.{IsCanonical, IsCanonical-append, IsPart-append}
use ai_m_os.AifsDaemon.Subvolumes.{
  rest_of, Subvolumes, moved, with_at, Same, IsVolume, IsBtrfs, Copies, Renames,
}
use ai_m_os.AifsDaemon.Folders
use ai_m_os.AifsDaemon.Restore.{copying}

unlike_dot : (q : Text) → text_eq (q ++ codes ".aifs-restore-backup") (codes ".") ≡ false
unfolding text_eq
unlike_dot [] = refl
unlike_dot (c ∷ []) = ground arith
unlike_dot (c ∷ d ∷ q) = ground arith

unlike_dots : (q : Text) → text_eq (q ++ codes ".aifs-restore-backup") (codes "..") ≡ false
unfolding text_eq
unlike_dots [] = refl
unlike_dots (c ∷ []) = ground arith
unlike_dots (c ∷ d ∷ []) = ground arith
unlike_dots (c ∷ d ∷ e ∷ q) = ground arith

pub backup_of-IsCanonical : (volume : Text) → IsCanonical volume → IsCanonical (backup_of volume)
backup_of-IsCanonical volume c =
    IsCanonical-append volume (codes ".aifs-restore-backup") c
      λ q h. IsPart-append q (codes ".aifs-restore-backup") h refl (unlike_dot q) (unlike_dots q)

module _ {V : Type 0} (t : Subvolumes V) where
  -- Nothing is at or under the path.
  abbrev pub Free : Text → Type 0
  Free p = (path : Text) → rest_of p path ≢ none → t path ≡ none

  -- After a success the volume is the snapshot, and all else is as before. After an error, all is
  -- as before, or the volume has only its backup's name, or it is the snapshot beside the backup.
  unfoldable pub IsRestored : Text → Text → Outcome (Unit {0}) → Subvolumes V → Type 0
  unfolding moved
  IsRestored snap volume (value _) t' = (t snap ≢ none) × Same (with_at volume (t snap) t) t'
  IsRestored snap volume (fault _) t' =
      (Same t t' ⊎ Same (moved volume (backup_of volume) t) t')
      ⊎ ((t snap ≢ none) × Same (with_at volume (t snap) (moved volume (backup_of volume) t)) t')
  IsRestored snap volume panic t' = ⊥

module _ {W : Type 0} (sys : System W) {V : Type 0} (subvols : W → Subvolumes V)
    (is_there : W → Text → Bool) (laws : IsBtrfs sys subvols is_there) (snap volume : Text)
    (clean_volume : IsCanonical volume) (clean_snap : IsCanonical snap) (w : W)
    (vol : IsVolume sys subvols is_there w volume) where
  abbrev pub aside : Subvolumes V
  aside = moved volume (backup_of volume) (subvols w)

  pub set_aside :
      (w1 : W)
      → sys.rename volume (backup_of volume) w ≡ (none, w1)
      → Same aside (subvols w1) × (is_there w1 volume ≡ false)
  set_aside w1 e =
      let r = subst (Renames sys subvols is_there volume (backup_of volume) w) e (
        laws.rename_lem volume (backup_of volume) w clean_volume
          (backup_of-IsCanonical volume clean_volume) vol) in
      (r.0, r.1 (Folders.rest_of-longer volume (codes "aifs-restore-backup")))

  with_at-Same :
      (p : Text) (v : Option V) (t t' : Subvolumes V)
      → Same t t'
      → Same (with_at p v t) (with_at p v t')
  with_at-Same p v t t' same q = ap (λ x. if text_eq q p then v else x) (same q)

  -- The snapshot was found beside the volume, and stands in its place.
  pub copied :
      (w1 w2 : W) (out : Text)
      → sys.rename volume (backup_of volume) w ≡ (none, w1)
      → sys.btrfs (copying snap volume) w1 ≡ ((out, none), w2)
      → (x : V) × (aside snap ≡ some x) × Same (with_at volume (some x) aside) (subvols w2)
  copied w1 w2 out e k =
      let gone = set_aside w1 e in
      let found =
        subst (Copies sys subvols is_there snap volume w1) k
          (laws.copy_lem snap volume w1 clean_snap clean_volume gone.1) in
      (
        found.0,
        sym (gone.0 snap) ∙ found.1,
        λ q. found.2 q ∙ with_at-Same volume (some found.0) aside (subvols w1) gone.0 q,
      )

  pub uncopied :
      (w1 w2 : W) (out e : Text)
      → sys.rename volume (backup_of volume) w ≡ (none, w1)
      → sys.btrfs (copying snap volume) w1 ≡ ((out, some e), w2)
      → Same aside (subvols w2)
  uncopied w1 w2 out e h k q =
      let gone = set_aside w1 h in
      subst (Copies sys subvols is_there snap volume w1) k
        (laws.copy_lem snap volume w1 clean_snap clean_volume gone.1) q
      ∙ gone.0 q

  pub aside-source :
      (x : V)
      → rest_of (backup_of volume) snap ≡ none
      → aside snap ≡ some x
      → (rest_of volume snap ≡ none) × (subvols w snap ≡ some x)
  aside-source x beside h = elim (Option-cases (rest_of volume snap)) [
    | inl k ↦
        (k, sym (Folders.moved-beside volume (backup_of volume) (subvols w) snap beside k) ∙ h)
    | inr (r, k) ↦
        ground (arith, h, Folders.moved-from volume (backup_of volume) (subvols w) snap r beside k)
  ]
