-- ===== src/AifsDaemon/Calls.antt =====
-- What aifs/daemon/btrfs.go runs on: the program `btrfs`, the system calls and the clock.
use ai_m_os.Common.{Bool, List, [], ◌∷◌, ◌++◌, Option, none, some, Text, codes}
use ai_m_os.AifsDaemon.Go.{G, value, fault}

-- What `os.ReadDir` gives of an entry, with the time of `Info`, which fails if the entry has gone.
pub record DirEntry : Type 0 where
  pub name : Text
  pub is_dir : Bool
  pub mod_time : Option Text

pub data Listing : Type 0 where
  entries : List DirEntry → Listing
  not_exist : Listing
  unreadable : Text → Listing

-- A slice, which is `nil` until something is appended to it.
pub data Slice (A : Type 0) : Type 0 where
  nil_slice : Slice A
  slice : List A → Slice A

unfoldable pub appended : {A : Type 0} → List A → Slice A
appended [] = nil_slice
appended (x ∷ xs) = slice (x ∷ xs)

-- What the daemon runs on. Times come formatted, and an error is its text.
pub record System (W : Type 0) : Type 0 where
  -- `os.MkdirAll(path, 0755)`
  pub mkdir_all : Text → W → Option Text × W
  pub rename : Text → Text → W → Option Text × W
  pub read_dir : Text → W → Listing × W
  -- the output of `exec.Command("btrfs", args...)` and its error
  pub btrfs : List Text → W → (Text × Option Text) × W
  -- `time.Now()` as RFC 3339, and as the name of a snapshot
  pub now : W → Text × W
  pub now_name : W → Text × W

-- `p, rest := …` of what cannot fail
abbrev pub reads : {W A : Type 0} → (W → A × W) → G W A
reads m w = let (a, w') = m w in (value a, w')

-- `if err := m; err != nil { return …, fmt.Errorf("prefix: %w", err) }`
abbrev pub failing : {W : Type 0} → Text → (W → Option Text × W) → G W (Unit {0})
failing prefix m w =
    let (err, w') = m w in
    elim err [ none ↦ (value tt, w') | some e ↦ (fault (prefix ++ (codes ": " ++ e)), w') ]

-- `_ = m`
abbrev pub ignore : {W : Type 0} → (W → Option Text × W) → W → W
ignore m w = (m w).1
