-- ===== src/Examples/Shell.antt =====
-- The command line `aifs` with the AIFS daemon on a small disk.
use mathlib.Core.List.{append-nil}
use ai_m_os.Common.{
  ℕ, ◌<◌, ◌≡◌, ◌≢◌, refl, List, [], ◌∷◌, ◌++◌, none, Text, codes, Exn, ok, raised, arith,
}
use ai_m_os.Common.Lists.{length, All}
use ai_m_os.Common.Str.{text_eq, lower, split_on, has_part}
use ai_m_os.Client.Receive.{concat}
use ai_m_os.Json.{Json, str}
use ai_m_os.Aifs.{Cli, run, out, err}
use ai_m_os.AifsDaemon.Go.{value}
use ai_m_os.AifsDaemon.Paths.{join, clean, trim_space, fields}
use ai_m_os.AifsDaemon.Calls.{System, slice, appended}
use ai_m_os.AifsDaemon.Volumes.{
  Volume, restore_snapshot, list_volumes, volumes_of_lines, volume_of_line, btrfs_exec,
}
use ai_m_os.AifsDaemon.Parts.{is_part}
use ai_m_os.AifsDaemon.Disk.{Disk, blank, look, has, disk}
use ai_m_os.AifsDaemon.Disk.Laws.{disk-IsBtrfs}
use ai_m_os.AifsDaemon.Wire.{Served, Speaks, peer}
use ai_m_os.AifsDaemon.Wire.Exchange.{facing}
use ai_m_os.AifsDaemon.Wire.Told.{idle, shown, IsTold, restore}
use ai_m_os.AifsDaemon.Wire.Confirmed.{run-Asks}
use ai_m_os.AifsDaemon.Wire.Session.{snapshot_line, run-list, run-restore_after_snap}
use ai_m_os.Examples.Fixed.{fixed}
use ai_m_os.Examples.Codec.{decode, dumps, decode-dumps}
use ai_m_os.Examples.Answers.{encode, loads, loads-encode}
use ai_m_os.Examples.Volumes.{
  home, monday, copy, machine, with_monday, taken_monday, home-IsCanonical, monday-IsCanonical,
  takes_monday,
}

-- Texts arrive whole.
abbrev whole : Text → List Text
whole [] = []
whole (c ∷ t) = (c ∷ t) ∷ []

abbrev text_of : Json ℕ → Text
text_of (str s) = s
text_of _ = codes "value"

-- The user says y to every question.
abbrev agreeing : Cli (Served Disk) ℕ
agreeing = record {
  net = peer disk decode encode whole;
  fl = fixed;
  dumps = dumps;
  loads = loads;
  str_of = text_of;
  pad = λ n v. ok (text_of v);
  message_of = λ x. codes "message";
  format_time = λ v. none;
  input = λ prompt s. (ok (codes "y"), s);
  fuel = 100;
}

speaks : (sys : System Disk) → Speaks sys decode encode whole agreeing
speaks sys = record {
  decode_lem = decode-dumps;
  loads_lem = loads-encode;
  pieces_lem = joined;
  pieces-full = full;
  fuel_lem = λ r. short (encode r);
}
  where
    joined : (t : Text) → concat (whole t) ≡ t
    joined [] = refl
    joined (c ∷ t) = append-nil (c ∷ t)

    full : (t : Text) → All (λ piece. piece ≢ []) (whole t)
    full [] = tt
    full (c ∷ t) = (λ e. ground (arith, e), tt)

    short : (t : Text) → length (whole t) < 100
    short [] = omega arith
    short (c ∷ t) = omega arith

run-Asks_example :
    IsTold
      (codes "^ Restored: " ++ home ++ codes "  <- " ++ copy)
      []
      (restore_snapshot disk copy home machine).0
      (restore_snapshot disk copy home machine).1
      (run
        (facing disk decode encode whole agreeing)
        (codes "restore" ∷ home ∷ copy ∷ [])
        (idle machine, []))
unfolding lower text_eq
run-Asks_example =
    run-Asks disk decode encode whole agreeing (speaks disk) (λ e. refl) (codes "y") refl machine []
      (λ prompt. refl) (codes "restore" ∷ home ∷ copy ∷ []) (restore_snapshot disk copy home)
      (codes "^ Restored: " ++ home ++ codes "  <- " ++ copy) (restore home copy [])

run-restore_after_snap_example :
    (run
        (facing disk decode encode whole agreeing)
        (codes "snap" ∷ home ∷ codes "monday" ∷ [])
        (idle machine, [])
      ≡ (ok tt, (idle with_monday, [] ++ out (snapshot_line agreeing taken_monday) ∷ [])))
    × ((e : Text) × (run
            (facing disk decode encode whole agreeing)
            (codes "restore" ∷ home ∷ monday ∷ [])
            (idle with_monday, [] ++ out (snapshot_line agreeing taken_monday) ∷ [])
          ≡ (
            raised (Exn.system_exit 1),
            (
              idle (restore_snapshot disk monday home with_monday).1,
              ([] ++ out (snapshot_line agreeing taken_monday) ∷ [])
                  ++ err (codes "error: " ++ shown e) ∷ [],
            ),
          )))
unfolding has text_eq is_part lower
run-restore_after_snap_example =
    run-restore_after_snap disk decode encode whole agreeing (speaks disk) (λ e. refl) look has
      disk-IsBtrfs home (codes "monday") monday (codes "y") machine with_monday taken_monday []
      home-IsCanonical refl monday-IsCanonical refl takes_monday refl (λ prompt. refl)

-- Two subvolumes, one of them a snapshot.
abbrev listed : System Disk
listed = record disk {
  btrfs = λ args d. (
    (
      codes
          "ID 256 gen 30 top level 5 path home\nID 257 gen 31 top level 5 path home/.aifs-snapshots/monday\n",
      none,
    ),
    d,
  );
}

abbrev home_volume : Volume
home_volume = record { path = codes "/mnt/home"; created_at = [] }

lists_home : list_volumes listed (codes "/mnt") blank ≡ (value (slice (home_volume ∷ [])), blank)
unfolding list_volumes volumes_of_lines volume_of_line btrfs_exec trim_space split_on fields join
    clean has_part text_eq appended
lists_home = refl

run-list_example :
    run
      (facing listed decode encode whole agreeing)
      (codes "list" ∷ codes "/mnt" ∷ [])
      (idle blank, [])
    ≡ (ok tt, (idle blank, [] ++ out (codes "/mnt/home") ∷ []))
run-list_example =
    run-list listed decode encode whole agreeing (speaks listed) (λ e. refl) (codes "/mnt") [] blank
      blank (slice (home_volume ∷ [])) [] lists_home
