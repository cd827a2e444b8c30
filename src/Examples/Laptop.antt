-- ===== src/Examples/Laptop.antt =====
-- A machine with a process of root and two of users, and a snapshot of a busy and of an idle
-- processor.
use ai_m_os.Common.{
  ℕ, ℤ, pos, eqb_ℤ, true, List, [], ◌∷◌, Text, codes, Option, none, some, if◌then◌else◌, ◌++◌, ok,
  ◌*◌, ◌≡◌, refl,
}
use ai_m_os.Common.Str.{text_eq}
use ai_m_os.Json.{dict, end}
use ai_m_os.Snapshot.{SystemSnapshot}
use ai_m_os.KernelModule.{Slot, Tasks, task, no_pid}
use ai_m_os.Host.{Host, host_os}
use ai_m_os.Heuristics.{ProcessInfo, list_processes, list_entries, list_entry, read_proc}

abbrev slots : ℤ → Slot
slots q =
    if eqb_ℤ q (pos 1)
    then task (pos 0)
    else if eqb_ℤ q (pos 700)
    then task (pos 3)
    else if eqb_ℤ q (pos 800)
    then task (pos 0)
    else no_pid

abbrev pub tasks : Tasks
tasks = record { slot = slots; refs = 4 }

abbrev stat_of : Text → Text → Text → Text → Text
stat_of pid name ticks nice =
    pid
    ++ codes " ("
    ++ name
    ++ codes ") S 0 0 0 0 0 0 0 0 0 0 "
    ++ ticks
    ++ codes " 2 0 0 20 "
    ++ nice
    ++ codes " 1 0"

abbrev status_of : Text → Text → Text
status_of uid rss = codes "Name:\tx\nUid:\t" ++ uid ++ codes "\t0\nVmRSS:\t" ++ rss ++ codes " kB\n"

abbrev files : List (Text × Text)
files =
    (codes "/proc/1/stat", stat_of (codes "1") (codes "init") (codes "900") (codes "0"))
    ∷ (codes "/proc/1/status", status_of (codes "0") (codes "100"))
    ∷ (codes "/proc/700/stat", stat_of (codes "700") (codes "make") (codes "40") (codes "3"))
    ∷ (codes "/proc/700/status", status_of (codes "1000") (codes "5000"))
    ∷ (codes "/proc/800/stat", stat_of (codes "800") (codes "edit") (codes "70") (codes "0"))
    ∷ (codes "/proc/800/status", status_of (codes "1000") (codes "9000"))
    ∷ (codes "/proc/stat", codes "cpu  100 0 50 800 50 0 0\ncpu0 100 0 50 800 50 0 0\nintr 7\n")
    ∷ (codes "/proc/meminfo", codes "MemTotal: 16000 kB\nMemAvailable: 1000 kB\n")
    ∷ (codes "/proc/loadavg", codes "2 1 1 1/300 900\n")
    ∷ []

abbrev look_up : List (Text × Text) → Text → Option Text
look_up [] p = none
look_up ((k, v) ∷ kvs) p = if text_eq k p then some v else look_up kvs p

abbrev pub laptop : Host
laptop = record {
  loaded = true;
  root = true;
  tasks = tasks;
  files = look_up files;
  entries = codes "1" ∷ codes "cpuinfo" ∷ codes "700" ∷ codes "800" ∷ [];
}

abbrev pub init : ProcessInfo
init = record {
  pid = pos 1;
  name = codes "init";
  uid = pos 0;
  cpu_time = pos 902;
  nice = pos 0;
  vm_rss = pos 100;
}

abbrev pub make : ProcessInfo
make = record {
  pid = pos 700;
  name = codes "make";
  uid = pos 1000;
  cpu_time = pos 42;
  nice = pos 3;
  vm_rss = pos 5000;
}

abbrev pub edit : ProcessInfo
edit = record {
  pid = pos 800;
  name = codes "edit";
  uid = pos 1000;
  cpu_time = pos 72;
  nice = pos 0;
  vm_rss = pos 9000;
}

abbrev pub procs : List ProcessInfo
procs = init ∷ make ∷ edit ∷ []

pub scan : list_processes host_os laptop ≡ (ok procs, laptop)
unfolding list_processes list_entries list_entry read_proc text_eq
scan = refl

-- 85% of use is exceeded in the first, and 20% is not reached in the second.
abbrev snapshot : ℕ → SystemSnapshot ℕ
snapshot use_pct = record {
  timestamp = 5000;
  cpu_total_pct = use_pct * 1000;
  cpu_cores_pct = [];
  mem_total_kb = pos 16000;
  mem_used_kb = pos 15000;
  swap_total_kb = pos 0;
  swap_used_kb = pos 0;
  net_ifaces = dict end;
  load_avg_1 = 2000;
  cpu_temp_c = 40000;
  cpu_governor = codes "performance";
}

abbrev pub busy : SystemSnapshot ℕ
busy = snapshot 96

abbrev pub idle : SystemSnapshot ℕ
idle = snapshot 4
