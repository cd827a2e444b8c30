-- ===== src/Metrics/Keeps.antt =====
-- What a reading and `collect` keep of the world.
use ai_m_os.Common.{Text, codes, ok, Result, pos, List}
use ai_m_os.Common.Keeps.{Keeps, Keeps-bind, Keeps-lift, Keeps-from_result, Keeps-pure, keeps_rules}
use ai_m_os.Common.Action.{M, ◌>>=◌, lift, from_result}
use ai_m_os.Float.{Float}
use ai_m_os.Json.{dict, end, float, str}
use ai_m_os.Machine.{Os}
use ai_m_os.Machine.Keeps.{IsReading}
use ai_m_os.Metrics.{
  Machinery, Sample, read_cpu_raw, cpu_usage, read_cpu_usage, read_meminfo, read_load_avg, get_from,
  collect,
}

module _ {W F : Type 0} (P : W → Type 0) (mc : Machinery W F) where
  pub record IsObserving : Type 0 where
    pub time_keeps : Keeps P mc.time
    pub read_daemon_keeps : (name : Text) → Keeps P (mc.read_daemon name)

module _ {W F : Type 0} {P : W → Type 0} (os : Os W) (fl : Float F) (mc : Machinery W F)
    (reads : IsReading P os) (observes : IsObserving P mc) where
  abbrev PState : W × List Sample → Type 0
  PState s = P s.0

  read_cpu_usage-Keeps : Keeps PState (read_cpu_usage os fl mc)
  unfolding read_cpu_usage
  read_cpu_usage-Keeps =
      Keeps-bind (lift (os.read_text (codes "/proc/stat")))
        (λ text.
          from_result (read_cpu_raw text) >>= λ curr s. (ok (cpu_usage fl s.1 curr), (s.0, curr)))
        (Keeps-lift (os.read_text (codes "/proc/stat"))
          (reads.read_text_keeps (codes "/proc/stat")))
        λ text.
          Keeps-bind (from_result (read_cpu_raw text))
            (λ curr s. (ok (cpu_usage fl s.1 curr), (s.0, curr)))
            (Keeps-from_result (read_cpu_raw text)) λ curr. record { at = λ s h. h }

  read_meminfo-Keeps : Keeps P (read_meminfo os fl mc)
  unfolding read_meminfo
  read_meminfo-Keeps = search (keeps_rules, reads.read_text_keeps)

  read_load_avg-Keeps : Keeps P (read_load_avg os fl mc)
  unfolding read_load_avg
  read_load_avg-Keeps = search (keeps_rules, reads.read_text_keeps)

  -- One step of `collect`, on the first part of the state and on none of it.
  lift-step :
      {A B : Type 0} (m : M W A) (f : A → M (W × List Sample) B)
      → Keeps P m
      → ((a : A) → Keeps PState (f a))
      → Keeps PState (lift m >>= f)
  lift-step m f km kf = Keeps-bind (lift m) f (Keeps-lift m km) kf

  result-step :
      {A B : Type 0} (r : Result A) (f : A → M (W × List Sample) B)
      → ((a : A) → Keeps PState (f a))
      → Keeps PState (from_result r >>= f)
  result-step r f kf = Keeps-bind (from_result r) f (Keeps-from_result r) kf

  pub collect-Keeps : Keeps PState (collect os fl mc)
  unfolding collect
  collect-Keeps = Keeps-bind (read_cpu_usage os fl mc) _ read_cpu_usage-Keeps λ cpu.
      lift-step (read_meminfo os fl mc) _ read_meminfo-Keeps λ mem.
        lift-step (mc.read_daemon (codes "network")) _
          (observes.read_daemon_keeps (codes "network"))
          λ net. result-step (get_from os fl mc net (codes "ifaces") (dict end)) _ λ ifaces.
            lift-step (mc.read_daemon (codes "sensor")) _
              (observes.read_daemon_keeps (codes "sensor"))
              λ sensor.
                lift-step (mc.read_daemon (codes "power")) _
                  (observes.read_daemon_keeps (codes "power"))
                  λ power. lift-step (read_load_avg os fl mc) _ read_load_avg-Keeps λ load.
                    lift-step mc.time _ observes.time_keeps λ now.
                      result-step
                        (get_from os fl mc sensor (codes "cpu_temp_c") (float (fl.of_int (pos 0))))
                        _
                        λ temp. result-step (mc.float_of temp) _ λ cpu_temp_c.
                          result-step
                            (get_from os fl mc power (codes "cpu_governor") (str (codes "unknown")))
                            _ λ governor. Keeps-pure _
