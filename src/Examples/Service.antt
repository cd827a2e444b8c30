-- ===== src/Examples/Service.antt =====
-- Rounds of the daemon: one with a database that is gone, and rounds that are interrupted.
use ai_m_os.Common.{
  ℕ, ◌≡◌, refl, false, some, none, Exn, ok, raised, is_exception, codes, if◌then◌else◌, [],
}
use ai_m_os.Common.Action.{M}
use ai_m_os.Common.Str.{text_eq}
use ai_m_os.Database.{Database}
use ai_m_os.Machine.{Os}
use ai_m_os.Snapshot.{SystemSnapshot}
use ai_m_os.Metrics.{Machinery, collect}
use ai_m_os.Host.{Host, host_os}
use ai_m_os.Daemon.{Setting, go_on, tick, main, connect, round}
use ai_m_os.Daemon.Survival.{tick-raised, tick_dead_db, main_interrupted_asleep}
use ai_m_os.Logger.{init_schema}
use ai_m_os.Examples.Fixed.{fixed}
use ai_m_os.Examples.Laptop.{laptop, busy}

abbrev pub machinery : Machinery Host ℕ
machinery = record {
  time = λ h. (ok 5000, h);
  read_daemon = λ name h. (ok none, h);
  float_of = λ v. ok 40000;
  str_of = λ v. codes "unknown";
}

abbrev fails : M Host (Unit {0})
fails h = (raised Exn.db_error, h)

abbrev works : M Host (Unit {0})
works h = (ok tt, h)

abbrev dead_db : Database Host ℕ
dead_db = record {
  cursor = fails;
  execute = λ row. fails;
  execute_values = λ rows. fails;
  execute_script = λ sql. fails;
  commit = fails;
  rollback = fails;
  close = fails;
}

abbrev pub live_db : Database Host ℕ
live_db = record {
  cursor = works;
  execute = λ row. works;
  execute_values = λ rows. works;
  execute_script = λ sql. works;
  commit = works;
  rollback = works;
  close = works;
}

-- The loop sleeps until it is interrupted.
abbrev pub setting : Setting Host ℕ
setting = record {
  no_db = false;
  schema_path = codes "schema.sql";
  get_conn = λ h. (ok live_db, h);
  sleep = λ h. (raised Exn.keyboard_interrupt, h);
}

-- A machine on which reading `/proc/stat` raises this.
abbrev stat_raises : Exn → Os Host
stat_raises e = record host_os {
  read_text = λ p h. if text_eq p (codes "/proc/stat") then (raised e, h) else (ok [], h);
}

tick-raised_example : is_exception (Exn.system_exit 3) ≡ false
unfolding tick round collect text_eq
tick-raised_example =
    tick-raised (stat_raises (Exn.system_exit 3)) fixed machinery setting none (laptop, [])
      (Exn.system_exit 3) refl

abbrev collected : SystemSnapshot ℕ
collected = elim (collect host_os fixed machinery (laptop, [])).0 [
  | ok snap ↦ snap
  | raised _ ↦ busy
]

tick_dead_db_example :
    tick host_os fixed machinery setting (some dead_db) (laptop, [])
    ≡ (ok go_on, (laptop, (collect host_os fixed machinery (laptop, [])).1.1))
unfolding collect text_eq
tick_dead_db_example =
    tick_dead_db host_os fixed machinery setting dead_db (laptop, [])
      (collect host_os fixed machinery (laptop, [])).1 collected Exn.db_error Exn.db_error laptop
      laptop refl refl refl refl refl

main_interrupted_asleep_example :
    main (stat_raises Exn.os_error) fixed machinery setting 5 (laptop, [])
    ≡ (raised Exn.keyboard_interrupt, (laptop, []))
unfolding tick round collect connect init_schema text_eq
main_interrupted_asleep_example =
    main_interrupted_asleep (stat_raises Exn.os_error) fixed machinery setting 4 (some live_db)
      (laptop, []) (laptop, []) laptop laptop refl refl refl
