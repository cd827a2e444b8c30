-- ===== src/Window/Session.antt =====
-- A session with the window: user events in any order, while other programs go on.
use ai_m_os.Common.{
  ℕ, zero, suc, ◌≡◌, refl, subst, List, [], ◌∷◌, Option, none, some, Result, ok, raised, arith,
}
use mathlib.Core.Option.{some-injective}
use mathlib.Core.List.{Mem, mem-cons_self, mem-cons_of_mem}
use ai_m_os.Common.Lists.{get_elem?}
use ai_m_os.Common.Action.{M, ◌>>◌}
use ai_m_os.Common.Keeps.{Keeps, Keeps-then}
use ai_m_os.Machine.{Os}
use ai_m_os.Machine.Laws.{clamp_nice-IsNice}
use ai_m_os.Window.{ProcRow, Proxy, Window, WindowState, load_processes, update_status}
use ai_m_os.Window.Start.{
  UserEvent, select_row, turn_spin, click_refresh, click_apply, new_window, get_proxy, open_window,
  handle,
}
use ai_m_os.Common.Yields.{Yields, Yields-bind, Post}
use ai_m_os.Window.Keeps.{
  IsWindow, Good, any_result, load_processes-Keeps, update_status-Keeps, on_refresh-Keeps,
  on_apply-Keeps,
}

module _ {W : Type 0} (os : Os W) where
  get_elem?-Mem :
      (rows : List ProcRow) (i : ℕ) (row : ProcRow) → get_elem? rows i ≡ some row → Mem row rows
  get_elem?-Mem [] i row e = ground (arith, e)
  get_elem?-Mem (x ∷ rows) zero row e =
      subst (λ y. Mem y (x ∷ rows)) (some-injective x row e) mem-cons_self
  get_elem?-Mem (x ∷ rows) (suc i) row e = mem-cons_of_mem x (get_elem?-Mem rows i row e)

  handle-Keeps : (proxy : Option (Proxy W)) (ev : UserEvent) → Keeps (Good os) (handle os proxy ev)
  unfolding handle
  handle-Keeps proxy (select_row i) = record { at = λ s h. go s.1 h (get_elem? s.1.rows i) refl }
    where
      go :
          (win : Window)
          → IsWindow win
          → (found : Option ProcRow) → get_elem? win.rows i ≡ found
          → IsWindow (elim found as (λ x. Window) [
            | none ↦ win
            | some row ↦ record win { selected = some row }
          ])
      go win h none e = h
      go win h (some row) e = record {
        rising = h.rising;
        is_shown = λ r f.
            subst (λ y. Mem y win.rows) (some-injective row r f) (get_elem?-Mem win.rows i row e);
        in_range = h.in_range;
      }
  handle-Keeps proxy (turn_spin n) = record {
    at = λ s h. record { rising = h.rising; is_shown = h.is_shown; in_range = clamp_nice-IsNice n };
  }
  handle-Keeps proxy click_refresh = on_refresh-Keeps os proxy
  handle-Keeps proxy click_apply = on_apply-Keeps os proxy

  new_window-IsWindow : IsWindow new_window
  new_window-IsWindow = record {
    rising = tt;
    is_shown = λ row f. ground (arith, f);
    in_range = (omega arith, omega arith);
  }

  open_window-IsWindow :
      (get_object : M W (Proxy W))
      → Yields
          (λ (w : W). Unit {0})
          (λ (x : Option (Proxy W) × Window). IsWindow x.1)
          (open_window os get_object)
  unfolding open_window
  open_window-IsWindow get_object =
      Yields-bind (λ _. Unit {0}) (λ x. IsWindow x.1) (get_proxy get_object) _
        (record { at = λ w h. any_result os (get_proxy get_object w) })
        λ proxy _. record {
          at = λ w h. go proxy ((update_status os proxy >> load_processes os) (w, new_window)) (
              (Keeps-then (update_status os proxy) (load_processes os)
                  (update_status-Keeps os proxy) (load_processes-Keeps os)).at
                (w, new_window) new_window-IsWindow);
        }
    where
      go :
          (proxy : Option (Proxy W)) (out : Result (Unit {0}) × WindowState os)
          → IsWindow out.1.1
          → Post
              (λ (w : W). Unit {0})
              (λ (x : Option (Proxy W) × Window). IsWindow x.1)
              (
                elim out.0 as (λ x. Result (Option (Proxy W) × Window)) [
                  | ok _ ↦ ok (proxy, out.1.1)
                  | raised e ↦ raised e
                ],
                out.1.0,
              )
      go proxy (ok _, s) h = (h, tt)
      go proxy (raised e, s) h = tt

  -- What can happen to an open window: an event of the user, whose handler GTK calls and whose
  -- exception it reports, and a change of the machine behind it.
  module _ (proxy : Option (Proxy W)) where
    pub data Session (s : WindowState os) : WindowState os → Type 0 where
      opened : Session s s
      event :
          {u : WindowState os} (ev : UserEvent) → Session s u → Session s (handle os proxy ev u).1
      elsewhere : {w : W} {win : Window} (w' : W) → Session s (w, win) → Session s (w', win)

    Session-Keeps : (s u : WindowState os) → Session s u → IsWindow s.1 → IsWindow u.1
    Session-Keeps s u opened h = h
    Session-Keeps s u (event {u = v} ev r) h = (handle-Keeps proxy ev).at v (Session-Keeps s v r h)
    Session-Keeps s u (elsewhere {w} {win} w' r) h = Session-Keeps s (w, win) r h

  -- In every state that a window can come to from its opening, by any sequence of clicks, values of
  -- the spin button and changes of the machine, whatever the service answers or raises: the rows
  -- are in rising order of process numbers, the selected row is one of those shown, and the value
  -- is in [-20, 19].
  pub Session-IsWindow :
      (get_object : M W (Proxy W)) (proxy : Option (Proxy W)) (w w₁ : W) (win : Window)
      (s : WindowState os)
      → open_window os get_object w ≡ (ok (proxy, win), w₁)
      → Session proxy (w₁, win) s
      → IsWindow s.1
  Session-IsWindow get_object proxy w w₁ win s e r =
      Session-Keeps proxy (w₁, win) s r
        (subst (Post (λ (w : W). Unit {0}) (λ (x : Option (Proxy W) × Window). IsWindow x.1)) e
          ((open_window-IsWindow get_object).at w tt)).0
