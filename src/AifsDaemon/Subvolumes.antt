-- ===== src/AifsDaemon/Subvolumes.antt =====
-- What the daemon relies on of rename(2), mkdir(2) and the program `btrfs`: on a file system
-- without symbolic links, and with nobody else at work on it.
use ai_m_os.Common.{
  ◌≡◌, ◌≢◌, ◌==◌, Bool, false, [], ◌∷◌, ◌++◌, Option, none, some, Text, codes, if◌then◌else◌,
}
use ai_m_os.Common.Str.{text_eq}
use ai_m_os.AifsDaemon.Calls.{System}
use ai_m_os.AifsDaemon.Parts.{IsCanonical}

-- What stands of a path behind a folder that it is, or is in.
unfoldable pub rest_of : Text → Text → Option Text
rest_of [] [] = some []
rest_of [] (c ∷ path) = if c == b'/' then some (c ∷ path) else none
rest_of (a ∷ folder) [] = none
rest_of (a ∷ folder) (c ∷ path) = let rest = rest_of folder path in if a == c then rest else none

-- The subvolumes by their path, each with the files that are its own: without those of the
-- subvolumes in it.
abbrev pub Subvolumes : Type 0 → Type 0
Subvolumes V = Text → Option V

module _ {V : Type 0} where
  -- The folder `a` with all that it holds gets the name `b`.
  unfoldable pub moved : Text → Text → Subvolumes V → Subvolumes V
  unfolding rest_of
  moved a b t path = elim (rest_of b path) [
    | some rest ↦ t (a ++ rest)
    | none ↦ elim (rest_of a path) [ some _ ↦ none | none ↦ t path ]
  ]

  -- One subvolume put at a path, or taken away.
  abbrev pub with_at : Text → Option V → Subvolumes V → Subvolumes V
  with_at p v t path = if text_eq path p then v else t path

  abbrev pub Same : Subvolumes V → Subvolumes V → Type 0
  Same t t' = (path : Text) → t' path ≡ t path

module _ {W : Type 0} (sys : System W) {V : Type 0} (subvols : W → Subvolumes V)
    (is_there : W → Text → Bool) where
  -- There is a subvolume at the path.
  abbrev pub IsVolume : W → Text → Type 0
  IsVolume w p = (v : V) × (subvols w p ≡ some v)

  abbrev pub Renames : Text → Text → W → Option Text × W → Type 0
  Renames a b w (none, w') =
      Same (moved a b (subvols w)) (subvols w') × (rest_of a b ≡ none → is_there w' a ≡ false)
  Renames a b w (some _, w') = Same (subvols w) (subvols w')

  -- Where nothing is at `to`; inside a folder that is there the program would choose the name.
  abbrev pub Copies : Text → Text → W → (Text × Option Text) × W → Type 0
  Copies from to w ((_, none), w') =
      (v : V) × (subvols w from ≡ some v) × Same (with_at to (some v) (subvols w)) (subvols w')
  Copies from to w ((_, some _), w') = Same (subvols w) (subvols w')

  -- A subvolume with others in it is not deleted.
  abbrev pub Deletes : Text → W → (Text × Option Text) × W → Type 0
  Deletes p w ((_, none), w') =
      ((path : Text) → rest_of p path ≢ none → path ≢ p → subvols w path ≡ none)
      × Same (with_at p none (subvols w)) (subvols w')
  Deletes p w ((_, some _), w') = Same (subvols w) (subvols w')

  pub record IsBtrfs : Type 0 where
    pub rename_lem :
        (a b : Text) (w : W)
        → IsCanonical a
        → IsCanonical b
        → IsVolume w a
        → Renames a b w (sys.rename a b w)
    pub copy_lem :
        (from to : Text) (w : W)
        → IsCanonical from
        → IsCanonical to
        → is_there w to ≡ false
        → Copies from to w (sys.btrfs (codes "subvolume" ∷ codes "snapshot" ∷ from ∷ to ∷ []) w)
    pub copy_read_only_lem :
        (from to : Text) (w : W)
        → IsCanonical from
        → IsCanonical to
        → is_there w to ≡ false
        → Copies from to w
            (sys.btrfs (codes "subvolume" ∷ codes "snapshot" ∷ codes "-r" ∷ from ∷ to ∷ []) w)
    pub delete_lem :
        (p : Text) (w : W)
        → IsCanonical p
        → Deletes p w (sys.btrfs (codes "subvolume" ∷ codes "delete" ∷ p ∷ []) w)
    pub mkdir_all_lem :
        (p path : Text) (w : W)
        → IsCanonical p
        → rest_of path p ≡ none
        → is_there (sys.mkdir_all p w).1 path ≡ is_there w path
    pub now_lem : (w : W) → Same (subvols w) (subvols (sys.now w).1)
