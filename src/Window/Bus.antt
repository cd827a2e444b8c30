-- ===== src/Window/Bus.antt =====
-- The process window on the D-Bus object of this repository, on a machine of which both know: from
-- the button to the kernel. The bus hands calls over in order, and an exception of a method back
-- as a `DBusException`.
use ai_m_os.Common.{
  subst, ℤ, pos, ◌≡◌, refl, ◌∙◌, ap, Bool, true, false, ◌⊎◌, List, [], ◌∷◌, ◌++◌, Option, some, Exn,
  Result, ok, raised, is_exception, Text, codes, inl, inr, arith,
}
use mathlib.Core.Option.{get_or}
use ai_m_os.Common.Number.{show_ℤ}
use ai_m_os.Common.Action.{M, raise, try_except}
use ai_m_os.Common.Raises.{Fine, Raises-lift}
use ai_m_os.Machine.{Os}
use ai_m_os.Machine.Laws.{IsPid, Sets, Same, IsLawful}
use ai_m_os.Machine.Beside.{beside_os}
use ai_m_os.Machine.Keeps.{IsReading}
use ai_m_os.SchedulerService.{Service, Signal, set_process_priority, is_module_loaded}
use ai_m_os.SchedulerService.Laws.{SetPriority, set_process_priority_lem}
use ai_m_os.Window.{
  ProcRow, Proxy, Window, WindowState, list_rows, set_result, apply_to, on_apply, is_dbus_error,
}
use ai_m_os.Window.Listing.{IsNoDbus, IsApart, list_rows-Keeps, list_rows-Raises}
use ai_m_os.Window.Handlers.{on_apply_done}
use ai_m_os.Window.Keeps.{load_processes_raised}

module _ {W : Type 0} (os : Os W) (message : Exn → Text) where
  abbrev via_bus : {A : Type 0} → M (Service os) A → M (Service os) A
  via_bus m = try_except is_exception m (λ e. raise (Exn.dbus_error (message e)))

  via_bus_ok :
      {A : Type 0} (m : M (Service os) A) (s : Service os) {a : A} {s' : Service os}
      → m s ≡ (ok a, s')
      → via_bus m s ≡ (ok a, s')
  via_bus_ok m s e = ground (arith, e)

  abbrev pub service_proxy : Proxy (Service os)
  service_proxy = record {
    is_kernel_module_loaded = via_bus (is_module_loaded os);
    set_process_priority = λ pid n. via_bus (set_process_priority os pid n);
  }

module _ (row : ProcRow) (win : Window) where
  abbrev pub done_text : Text
  done_text =
      codes "PID " ++ show_ℤ row.pid ++ codes " -> nice " ++ show_ℤ win.nice_spin ++ codes ": OK"

  abbrev pub failed_text : Text
  failed_text = codes "PID " ++ show_ℤ row.pid ++ codes ": failed"

module _ {W : Type 0} (os : Os W) (proxy : Proxy W) (row : ProcRow) (win : Window) where
  on_apply_refused :
      (w w₁ : W)
      → win.selected ≡ some row
      → proxy.set_process_priority row.pid win.nice_spin w ≡ (ok false, w₁)
      → on_apply os (some proxy) (w, win)
        ≡ (ok tt, (w₁, record win { result = failed_text row win }))
  unfolding on_apply set_result apply_to
  on_apply_refused w w₁ chosen answer = ground arith

  on_apply_accepted :
      (w w₁ w₂ : W) (r : Result (List ProcRow))
      → win.selected ≡ some row
      → proxy.set_process_priority row.pid win.nice_spin w ≡ (ok true, w₁)
      → list_rows os w₁ ≡ (r, w₂)
      → ((e : Exn) → r ≡ raised e → is_dbus_error e ≡ false)
      → ((on_apply os (some proxy) (w, win)).1.0 ≡ w₂)
        × ((on_apply os (some proxy) (w, win)).1.1.result ≡ done_text row win)
  unfolding on_apply set_result apply_to
  on_apply_accepted w w₁ w₂ (ok rows) chosen answer found clean =
      rw (on_apply_done os proxy row rows w w₁ w₂ win chosen answer found) (refl, refl)
  on_apply_accepted w w₁ w₂ (raised e) chosen answer found clean =
      let shown =
        load_processes_raised os w₁ w₂ (record win { result = done_text row win }) e found in
      ground (arith, shown, clean e refl)

module _ {W : Type 0} (nice_of : W → ℤ → Option ℤ) (os : Os W) (message : Exn → Text) where
  -- What the result line says is true. OK: the value of the spin button is set, nothing else has
  -- changed, and one signal has told so. Failed: nothing has changed, and no signal was sent.
  abbrev pub Told :
      ProcRow → Service os → Window → WindowState (beside_os (List Signal) os) → Type 0
  Told row s win after =
      ((after.1.result ≡ done_text row win)
        × Sets nice_of s.0 row.pid win.nice_spin after.0.0
        × (after.0.1 ≡ s.1 ++ (row.pid, get_or (nice_of s.0 row.pid) (pos 0), win.nice_spin) ∷ []))
      ⊎ ((after.1.result ≡ failed_text row win) × Same nice_of s.0 after.0.0 × (after.0.1 ≡ s.1))

  module _ (laws : IsLawful nice_of os) (reads : (w : W) → IsReading (Same nice_of w) os)
      (apart : IsApart os) where
    beside :
        (s : Service os)
        → IsReading
            (λ (v : Service os). Same nice_of s.0 v.0 × (v.1 ≡ s.1))
            (beside_os (List Signal) os)
    beside s = record {
      path_exists_keeps =
          λ p. record { at = λ v h. (((reads s.0).path_exists_keeps p).at v.0 h.0, h.1) };
      read_text_keeps =
          λ p. record { at = λ v h. (((reads s.0).read_text_keeps p).at v.0 h.0, h.1) };
      scandir_keeps = λ p. record { at = λ v h. (((reads s.0).scandir_keeps p).at v.0 h.0, h.1) };
      getpriority_keeps =
          λ pid. record { at = λ v h. (((reads s.0).getpriority_keeps pid).at v.0 h.0, h.1) };
    }

    lift-IsApart : IsApart (beside_os (List Signal) os)
    lift-IsApart = record {
      read_text_apart = λ p. Raises-lift (os.read_text p) (apart.read_text_apart p);
      scandir_apart = λ p. Raises-lift (os.scandir p) (apart.scandir_apart p);
      getpriority_apart = λ pid. Raises-lift (os.getpriority pid) (apart.getpriority_apart pid);
    }

    -- On a machine that meets the laws, on which looking changes no nice value and raises
    -- no `DBusException`, with the D-Bus object reached and a row selected whose
    -- number is a process number: after the button was clicked the result line says OK or failed.
    -- If OK, the process has the value of the spin button, no other nice value has changed, and one
    -- signal was sent, with the value that stood before. If failed, no nice value has changed and
    -- no signal was sent.
    pub on_apply-Told :
        (row : ProcRow) (s : Service os) (win : Window)
        → win.selected ≡ some row
        → IsPid row.pid
        → Told row s win
            (on_apply (beside_os (List Signal) os) (some (service_proxy os message)) (s, win)).1
    on_apply-Told row s win chosen p =
        go (set_process_priority os row.pid win.nice_spin s) refl
          (set_process_priority_lem nice_of os laws row.pid win.nice_spin s p)
      where
        go :
            (out : Result Bool × Service os)
            → set_process_priority os row.pid win.nice_spin s ≡ out
            → SetPriority nice_of os s row.pid win.nice_spin out
            → Told row s win
                (on_apply (beside_os (List Signal) os) (some (service_proxy os message)) (s, win)).1
        go (ok true, s') e d =
            let found = list_rows (beside_os (List Signal) os) s' in
            let looked =
              (list_rows-Keeps (beside_os (List Signal) os) (beside s')).at s' (λ q. refl, refl) in
            let quiet = (list_rows-Raises (beside_os (List Signal) os) (lift-IsApart)).at s' in
            let told =
              on_apply_accepted (beside_os (List Signal) os) (service_proxy os message) row win s s'
                found.1 found.0 chosen
                (via_bus_ok os message (set_process_priority os row.pid win.nice_spin) s e) refl
                (λ x f. subst (Fine IsNoDbus) f quiet) in
            inl (
              told.1,
              λ q. ap (λ v. nice_of v.0 q) told.0 ∙ looked.0 q ∙ d.2 q,
              ap (λ v. v.1) told.0 ∙ looked.1 ∙ d.3,
            )
        go (ok false, s') e d =
            rw
              (on_apply_refused (beside_os (List Signal) os) (service_proxy os message) row win s s'
                chosen (via_bus_ok os message (set_process_priority os row.pid win.nice_spin) s e))
              (inr (refl, d.0, d.1))
        go (raised x, s') e d = absurd d
