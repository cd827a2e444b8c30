-- ===== src/AifsDaemon/Restore/Taken.antt =====
-- aifs/daemon/btrfs.go, `TakeSnapshot` and then `RestoreSnapshot`.
use mathlib.Core.List.{append_assoc}
use ai_m_os.Common.{
  ◌≡◌, ◌≢◌, refl, sym, ◌∙◌, ap, subst, [], ◌∷◌, ◌++◌, none, some, Text, codes, inl, inr, Bool,
  false, List, arith,
}
use ai_m_os.Common.Str.{text_eq}
use ai_m_os.AifsDaemon.Go.{value}
use ai_m_os.AifsDaemon.Calls.{System}
use ai_m_os.AifsDaemon.Volumes.{Snapshot, restore_snapshot, take_snapshot, snapshot_dir, btrfs_exec}
use ai_m_os.AifsDaemon.Paths.{join}
use ai_m_os.AifsDaemon.Parts.{IsCanonical, IsPart, is_part, below, below-IsCanonical, join-below}
use ai_m_os.AifsDaemon.Subvolumes.{rest_of, Subvolumes, IsBtrfs, Copies}
use ai_m_os.AifsDaemon.Folders
use ai_m_os.AifsDaemon.Restore.{btrfs_cases, renamed_cases}
use ai_m_os.AifsDaemon.Restore.Refusals.{Faults, restore_snapshot-nested}

-- Where a snapshot of this name goes.
abbrev pub snapshot_path : Text → Text → Text
snapshot_path volume name = below (below volume snapshot_dir) name

abbrev pub copying_read_only : Text → Text → List Text
copying_read_only volume path =
    codes "subvolume" ∷ codes "snapshot" ∷ codes "-r" ∷ volume ∷ path ∷ []

snapshot_dir-IsPart : IsPart snapshot_dir
unfolding is_part text_eq
snapshot_dir-IsPart = refl

module _ {W : Type 0} (sys : System W) where
  -- A snapshot that was taken under a name of its own, by the calls that were made.
  pub record Takes (volume name : Text) (w : W) (s : Snapshot) (w' : W) : Type 0 where
    pub after_mkdir : W
    pub after_copy : W
    pub out : Text
    pub made : sys.mkdir_all (below volume snapshot_dir) w ≡ (none, after_mkdir)
    pub copied :
        sys.btrfs (copying_read_only volume (snapshot_path volume name)) after_mkdir
        ≡ ((out, none), after_copy)
    pub clock : (sys.now after_copy).1 ≡ w'
    pub named : s.path ≡ snapshot_path volume name

  take_snapshot-Takes :
      (volume name : Text) (w w' : W) (s : Snapshot)
      → IsCanonical volume
      → IsPart name
      → take_snapshot sys volume name w ≡ (value s, w')
      → Takes volume name w s w'
  unfolding take_snapshot btrfs_exec is_part
  take_snapshot-Takes volume [] w w' s c h e = ground (arith, h)
  take_snapshot-Takes volume (d ∷ name) w w' s c h e =
      elim (renamed_cases (sys.mkdir_all (join volume snapshot_dir) w)) [
        | inr (x, (w1, k)) ↦ ground (arith, e, k)
        | inl (w1, k) ↦
            elim (btrfs_cases (
              sys.btrfs (copying_read_only volume (join (join volume snapshot_dir) (d ∷ name)))
                w1)) [
                  | inr (out, (x, (w2, l))) ↦ ground (arith, e, k, l)
                  | inl (out, (w2, l)) ↦ record {
                    after_mkdir = w1;
                    after_copy = w2;
                    out = out;
                    made = ap (λ p. sys.mkdir_all p w) (sym folder) ∙ k;
                    copied = ap (λ p. sys.btrfs (copying_read_only volume p) w1) (sym path) ∙ l;
                    clock = ground (arith, e, k, l);
                    named = ground (arith, e, k, l) ∙ path;
                  }
                ]
      ]
    where
      folder : join volume snapshot_dir ≡ below volume snapshot_dir
      folder = join-below volume snapshot_dir c snapshot_dir-IsPart

      path : join (join volume snapshot_dir) (d ∷ name) ≡ snapshot_path volume (d ∷ name)
      path =
          ap (λ p. join p (d ∷ name)) folder
          ∙ join-below (below volume snapshot_dir) (d ∷ name)
              (below-IsCanonical volume snapshot_dir c snapshot_dir-IsPart) h

module _ {W : Type 0} (sys : System W) {V : Type 0} (subvols : W → Subvolumes V)
    (is_there : W → Text → Bool) (laws : IsBtrfs sys subvols is_there) (volume name : Text)
    (clean_volume : IsCanonical volume) (plain : IsPart name) (w w' : W) (s : Snapshot)
    (new : is_there w (snapshot_path volume name) ≡ false)
    (taken : take_snapshot sys volume name w ≡ (value s, w')) where
  abbrev taken_rest : Text
  taken_rest = codes "/.aifs-snapshots/" ++ name

  snapshot_path-inside : rest_of volume (snapshot_path volume name) ≡ some taken_rest
  snapshot_path-inside =
      ap (rest_of volume) (append_assoc volume (codes "/.aifs-snapshots") (codes "/" ++ name))
      ∙ Folders.rest_of-inside volume (codes ".aifs-snapshots/" ++ name)

  holds :
      Takes sys volume name w s w'
      → (x : V) × (subvols w' volume ≡ some x) × (subvols w' s.path ≡ some x)
  holds t = (
    found.0,
    after volume
        ∙ found.2 volume
        ∙ Folders.with_at-beside (snapshot_path volume name) (some found.0) (subvols t.after_mkdir)
            volume apart
        ∙ found.1,
    ap (subvols w') t.named
        ∙ after (snapshot_path volume name)
        ∙ found.2 (snapshot_path volume name)
        ∙ Folders.with_at-here (snapshot_path volume name) (some found.0) (subvols t.after_mkdir),
  )
    where
      apart : volume ≢ snapshot_path volume name
      apart e =
          ground
            (arith, snapshot_path-inside, ap (rest_of volume) (sym e), Folders.rest_of_refl volume)

      still_new : is_there t.after_mkdir (snapshot_path volume name) ≡ false
      still_new =
          ap (λ r. is_there r.1 (snapshot_path volume name)) (sym t.made)
          ∙ laws.mkdir_all_lem (below volume snapshot_dir) (snapshot_path volume name) w
              (below-IsCanonical volume snapshot_dir clean_volume snapshot_dir-IsPart)
              (Folders.rest_of-shorter (below volume snapshot_dir) name b'/')
          ∙ new

      found :
          Copies sys subvols is_there volume
            (snapshot_path volume name)
            t.after_mkdir
            ((t.out, none), t.after_copy)
      found =
          subst (Copies sys subvols is_there volume (snapshot_path volume name) t.after_mkdir)
            t.copied
            (laws.copy_read_only_lem volume (snapshot_path volume name) t.after_mkdir clean_volume
              (below-IsCanonical (below volume snapshot_dir) name
                (below-IsCanonical volume snapshot_dir clean_volume snapshot_dir-IsPart) plain)
              still_new)

      after : (q : Text) → subvols w' q ≡ subvols t.after_copy q
      after q = ap (λ v. subvols v q) (sym t.clock) ∙ laws.now_lem t.after_copy q

  -- Where the calls do what `IsBtrfs` says and the path is clean, a snapshot of a volume under a new
  -- and plain name that is reported as taken is there, in the volume, and holds what the volume
  -- holds.
  pub take_snapshot_lem :
      (rest_of volume s.path ≢ none)
      × ((x : V) × (subvols w' volume ≡ some x) × (subvols w' s.path ≡ some x))
  take_snapshot_lem =
      let run = take_snapshot-Takes sys volume name w w' s clean_volume plain taken in
      (
        (λ e. ground (arith, snapshot_path-inside, ap (rest_of volume) (sym run.named), e)),
        holds run,
      )

  -- After a snapshot of a volume was taken under a new and plain name, a restore of the volume ends
  -- with an error, from this snapshot and from any other.
  pub restore_snapshot-take_snapshot :
      (snap : Text) → IsCanonical snap → Faults (restore_snapshot sys snap volume w').0
  restore_snapshot-take_snapshot snap clean_snap =
      let run = take_snapshot-Takes sys volume name w w' s clean_volume plain taken in
      let got = holds run in
      restore_snapshot-nested sys subvols is_there laws snap volume clean_volume clean_snap w'
        (got.0, got.1) s.path taken_rest (ap (rest_of volume) run.named ∙ snapshot_path-inside)
        (λ e. ground (
          arith,
          ap (rest_of volume) run.named,
          snapshot_path-inside,
          ap (rest_of volume) e,
          Folders.rest_of_refl volume,
        ))
        (λ e. ground (arith, e, got.2))
