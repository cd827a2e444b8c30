-- ===== src/Examples/Spared.antt =====
-- The daemon on the example machine, whose `/proc` stays as it is, for some rounds.
use ai_m_os.Common.{
  ℕ, pos, ◌≡◌, refl, List, [], Result, ok, raised, codes, some, false, subst, arith,
}
use ai_m_os.Common.Str.{text_eq}
use ai_m_os.Common.Lists.{All}
use ai_m_os.Machine.{Os}
use ai_m_os.Machine.Laws.{IsLawful}
use ai_m_os.Machine.Keeps.{IsReading}
use ai_m_os.Host.{Host, host_nice, host_os}
use ai_m_os.Host.Laws.{host-IsLawful}
use ai_m_os.Heuristics.{ProcessInfo, list_processes, list_entries, list_entry, read_proc}
use ai_m_os.Heuristics.Effects.{IsSound}
use ai_m_os.Daemon.{Setting, main}
use ai_m_os.Daemon.Spared.{IsOfRoot, HasNice, Scans, IsGood, main_spared}
use ai_m_os.Examples.Fixed.{fixed}
use ai_m_os.Examples.Laptop.{laptop}
use ai_m_os.Examples.Rules.{procs-IsSound}
use ai_m_os.Examples.Service.{machinery, live_db}

-- The nice values that `/proc` tells are those of the start.
abbrev still_os : Os Host
still_os = record host_os {
  read_text = λ p h. ((host_os.read_text p laptop).0, h);
  scandir = λ p h. (ok laptop.entries, h);
}

still-IsLawful : IsLawful host_nice still_os
still-IsLawful = record {
  exists_lem = host-IsLawful.exists_lem;
  getpriority_live = λ pid w e. host-IsLawful.getpriority_live pid w e;
  getpriority_dead = host-IsLawful.getpriority_dead;
  setpriority_live = host-IsLawful.setpriority_live;
  write_line = host-IsLawful.write_line;
}

still_reads : IsReading (HasNice host_nice still_os fixed (pos 1) (some (pos 0))) still_os
still_reads = record {
  path_exists_keeps = λ p. record { at = λ h k. k };
  read_text_keeps = λ p. record { at = λ h k. k };
  scandir_keeps = λ p. record { at = λ h k. k };
  getpriority_keeps = λ pid. record { at = λ h k. k };
}

-- Of the processes that are found, 1 belongs to root.
abbrev Told : Result (List ProcessInfo) → Type 0
Told (ok found) = All IsSound found × All (IsOfRoot (pos 1)) found
Told (raised e) = Unit

still_scans : Scans host_nice still_os fixed (pos 1) (some (pos 0))
unfolding list_processes list_entries list_entry read_proc text_eq
still_scans w w' found e =
    subst (λ out. Told out.0) e
      (procs-IsSound, ((λ k. refl), ((λ k. ground (arith, k)), ((λ k. ground (arith, k)), tt))))

live_db-IsGood : IsGood host_nice still_os fixed (pos 1) (some (pos 0)) live_db
live_db-IsGood = (
  record {
    cursor_keeps = record { at = λ h k. k };
    execute_keeps = λ row. record { at = λ h k. k };
    execute_values_keeps = λ rows. record { at = λ h k. k };
    execute_script_keeps = λ sql. record { at = λ h k. k };
    commit_keeps = record { at = λ h k. k };
    rollback_keeps = record { at = λ h k. k };
    close_keeps = record { at = λ h k. k };
  },
  record {
    cursor_lem = λ w q. refl;
    execute_lem = λ row w q. refl;
    commit_lem = λ w q. refl;
    rollback_lem = λ w q. refl;
  },
)

abbrev watching : Setting Host ℕ
watching = record {
  no_db = false;
  schema_path = codes "schema.sql";
  get_conn = λ h. (ok live_db, h);
  sleep = λ h. (ok tt, h);
}

-- The other processes are set back to 0 in these rounds.
main_spared_example :
    host_nice (main still_os fixed machinery watching 3 (laptop, [])).1.0 (pos 1) ≡ some (pos 0)
unfolding host_nice
main_spared_example =
    main_spared host_nice still_os fixed (pos 1) (some (pos 0)) still-IsLawful still_reads
      still_scans machinery watching
      (record {
        time_keeps = record { at = λ h k. k };
        read_daemon_keeps = λ name. record { at = λ h k. k };
      })
      (record { at = λ h k. k }) (record { at = λ h k. (live_db-IsGood, k) }) 3 [] laptop refl
