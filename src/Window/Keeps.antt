-- ===== src/Window/Keeps.antt =====
-- What the handlers of the window keep of it, whatever the service and the machine do.
use ai_m_os.Common.{
  ℤ, ◌≡◌, refl, List, [], ◌++◌, Option, none, some, Exn, Result, ok, raised, Text, codes, arith,
}
use mathlib.Core.List.{Mem}
use ai_m_os.Common.Action.{M, lift, try_except}
use ai_m_os.Common.Keeps.{Keeps, Keeps-bind, Keeps-then, Keeps-if, Keeps-try_except}
use ai_m_os.Machine.{Os}
use ai_m_os.Machine.Laws.{IsNice}
use ai_m_os.Window.{
  ProcRow, Proxy, Window, WindowState, sort_by_pid, clear_rows, row_entries, list_rows,
  load_processes, set_result, set_status, update_status, on_refresh, apply_to, on_apply,
  is_dbus_error, dbus_message,
}
use ai_m_os.Common.Yields.{Yields, Yields-bind, Yields-pure, Post}
use ai_m_os.Window.Handlers.{IsRising, sort_by_pid_lem, remove_rows_lem, load_processes_lem}

-- The rows are in rising order, the selected one is among them, and the spin button is in range.
pub record IsWindow (win : Window) : Type 0 where
  pub rising : IsRising win.rows
  pub is_shown : (row : ProcRow) → win.selected ≡ some row → Mem row win.rows
  pub in_range : IsNice win.nice_spin

module _ {W : Type 0} (os : Os W) where
  abbrev pub Good : WindowState os → Type 0
  Good s = IsWindow s.1

  set_result-Keeps : (text : Text) → Keeps Good (set_result os text)
  unfolding set_result
  set_result-Keeps text = record {
    at = λ s h. record { rising = h.rising; is_shown = h.is_shown; in_range = h.in_range };
  }

  set_status-Keeps : (text : Text) → Keeps Good (set_status os text)
  unfolding set_status
  set_status-Keeps text = record {
    at = λ s h. record { rising = h.rising; is_shown = h.is_shown; in_range = h.in_range };
  }

  lift-Keeps : {A : Type 0} (m : M W A) → Keeps Good (lift m)
  lift-Keeps m = record { at = λ s h. h }

  pub any_result :
      {A : Type 0} (out : Result A × W) → Post (λ (w : W). Unit {0}) (λ _. Unit {0}) out
  any_result (ok a, w) = (tt, tt)
  any_result (raised e, w) = tt

  list_rows-IsRising : Yields (λ (w : W). Unit {0}) IsRising (list_rows os)
  unfolding list_rows
  list_rows-IsRising =
      Yields-bind (λ _. Unit {0}) IsRising (os.scandir _) _ (record { at = λ w h. any_result _ })
        λ entries _.
          Yields-bind (λ _. Unit {0}) IsRising (row_entries os entries) _
            (record { at = λ w h. any_result _ })
            λ rows _. Yields-pure IsRising (sort_by_pid rows) (sort_by_pid_lem rows).1

  pub load_processes_raised :
      (w w' : W) (win : Window) (e : Exn)
      → list_rows os w ≡ (raised e, w')
      → load_processes os (w, win) ≡ (raised e, (w', record win { rows = []; selected = none }))
  unfolding load_processes clear_rows
  load_processes_raised w w' win e found = ground (arith, remove_rows_lem win.rows win)

  pub load_processes-Keeps : Keeps Good (load_processes os)
  load_processes-Keeps = record {
    at = λ s h. go s h (list_rows os s.0) refl (list_rows-IsRising.at s.0 tt);
  }
    where
      go :
          (s : WindowState os)
          → IsWindow s.1
          → (out : Result (List ProcRow) × W) → list_rows os s.0 ≡ out
          → Post (λ (w : W). Unit {0}) IsRising out
          → IsWindow (load_processes os s).1.1
      go (w, win) h (ok rows, w') e (risen, _) =
          rw (load_processes_lem os w w' win rows e) (record {
            rising = risen;
            is_shown = λ row f. ground (arith, f);
            in_range = h.in_range;
          })
      go (w, win) h (raised x, w') e _ =
          rw (load_processes_raised w w' win x e)
            (record { rising = tt; is_shown = λ row f. ground (arith, f); in_range = h.in_range })

  pub update_status-Keeps : (proxy : Option (Proxy W)) → Keeps Good (update_status os proxy)
  unfolding update_status
  update_status-Keeps none = set_status-Keeps _
  update_status-Keeps (some proxy) =
      Keeps-try_except is_dbus_error _ _
        (Keeps-bind (lift proxy.is_kernel_module_loaded) _ (lift-Keeps _)
          λ loaded. set_status-Keeps _)
        λ _. set_status-Keeps _

  pub on_refresh-Keeps : (proxy : Option (Proxy W)) → Keeps Good (on_refresh os proxy)
  unfolding on_refresh
  on_refresh-Keeps proxy =
      Keeps-then (update_status os proxy) _ (update_status-Keeps proxy)
        (Keeps-then (load_processes os) _ load_processes-Keeps (set_result-Keeps _))

  apply_to-Keeps : (proxy : Proxy W) (row : ProcRow) (n : ℤ) → Keeps Good (apply_to os proxy row n)
  unfolding apply_to
  apply_to-Keeps proxy row n =
      Keeps-bind (lift (proxy.set_process_priority row.pid n)) _ (lift-Keeps _) λ done.
        Keeps-if done _ _ (Keeps-then (set_result os _) _ (set_result-Keeps _) load_processes-Keeps)
          (set_result-Keeps _)

  pub on_apply-Keeps : (proxy : Option (Proxy W)) → Keeps Good (on_apply os proxy)
  unfolding on_apply
  on_apply-Keeps proxy = record { at = λ s h. go s.1.selected proxy s h }
    where
      go :
          (chosen : Option ProcRow) (p : Option (Proxy W)) (s : WindowState os)
          → IsWindow s.1
          → IsWindow
              (elim chosen as (λ x. Result (Unit {0}) × WindowState os) [
                | none ↦ set_result os (codes "Select a process first") s
                | some row ↦ elim p as (λ x. Result (Unit {0}) × WindowState os) [
                  | none ↦ set_result os (codes "D-Bus not connected") s
                  | some q ↦
                      try_except is_dbus_error
                        (apply_to os q row s.1.nice_spin)
                        (λ e. set_result os (codes "D-Bus error: " ++ dbus_message e))
                        s
                ]
              ]).1.1
      go none p s h = (set_result-Keeps _).at s h
      go (some row) none s h = (set_result-Keeps _).at s h
      go (some row) (some q) s h =
          (Keeps-try_except is_dbus_error (apply_to os q row s.1.nice_spin) _
              (apply_to-Keeps q row s.1.nice_spin) λ e. set_result-Keeps _).at
            s h
