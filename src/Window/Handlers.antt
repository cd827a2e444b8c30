-- ===== src/Window/Handlers.antt =====
-- ai-daemon/dbus/aimos_scheduler_app.py: the list of processes and the button.
use mathlib.Core.List.{Perm}
use mathlib.Core.List.Perm
use ai_m_os.Common.{
  ℤ, ◌≤ℤ◌, leb_ℤ, ◌≡◌, refl, true, Bool-cases, Option-cases, inl, inr, ◌⊎◌, List, [], ◌∷◌, ◌++◌,
  Option, none, some, Text, codes, ok, arith,
}
use ai_m_os.Common.Lists.{All}
use ai_m_os.Common.Number.{show_ℤ}
use ai_m_os.Machine.{Os}
use ai_m_os.Window.{
  ProcRow, Proxy, Window, sort_by_pid, insert_asc, remove_rows, clear_rows, add_rows, list_rows,
  load_processes, set_result, apply_to, on_apply,
}

-- No later row has a smaller process number.
abbrev pub IsRising : List ProcRow → Type 0
IsRising [] = Unit
IsRising (x ∷ xs) = All (λ y. x.pid ≤ℤ y.pid) xs × IsRising xs

All-insert_asc :
    (b : ℤ) (x : ProcRow) (ys : List ProcRow)
    → b ≤ℤ x.pid
    → All (λ y. b ≤ℤ y.pid) ys
    → All (λ y. b ≤ℤ y.pid) (insert_asc x ys)
unfolding insert_asc
All-insert_asc b x [] h k = (h, tt)
All-insert_asc b x (y ∷ ys) h k = elim (Bool-cases (leb_ℤ x.pid y.pid)) [
  | inl e ↦ rw e (h, k)
  | inr e ↦ rw e (k.0, All-insert_asc b x ys h k.1)
]

All-above :
    (a b : ℤ) (ys : List ProcRow) → b ≤ℤ a → All (λ y. a ≤ℤ y.pid) ys → All (λ y. b ≤ℤ y.pid) ys
All-above a b [] h k = tt
All-above a b (y ∷ ys) h k = (omega arith, All-above a b ys h k.1)

insert_asc_lem :
    (x : ProcRow) (ys : List ProcRow)
    → IsRising ys
    → Perm (insert_asc x ys) (x ∷ ys) × IsRising (insert_asc x ys)
unfolding insert_asc
insert_asc_lem x [] h = (Perm.refl _, (tt, tt))
insert_asc_lem x (y ∷ ys) h = elim (Bool-cases (leb_ℤ x.pid y.pid)) [
  | inl e ↦
      let le : x.pid ≤ℤ y.pid = ground arith in
      rw e (Perm.refl _, ((le, All-above y.pid x.pid ys le h.0), h))
  | inr e ↦
      let rest = insert_asc_lem x ys h.1 in
      rw e (
        Perm.trans (Perm.cons y rest.0) (Perm.swap x y ys),
        (All-insert_asc y.pid x ys (ground arith) h.0, rest.1),
      )
]

-- The rows of the list are the processes that were found, each as often, in rising order of their
-- numbers.
pub sort_by_pid_lem :
    (rows : List ProcRow) → Perm (sort_by_pid rows) rows × IsRising (sort_by_pid rows)
unfolding sort_by_pid
sort_by_pid_lem [] = (Perm.refl _, tt)
sort_by_pid_lem (x ∷ xs) =
    let rest = sort_by_pid_lem xs in
    let here = insert_asc_lem x (sort_by_pid xs) rest.1 in
    (Perm.trans here.0 (Perm.cons x rest.0), here.1)

pub remove_rows_lem :
    (rows : List ProcRow) (win : Window)
    → remove_rows rows win ≡ record win { rows = []; selected = none }
unfolding remove_rows
remove_rows_lem [] win = refl
remove_rows_lem (_ ∷ rows) win = remove_rows_lem rows (record win { rows = rows })

module _ {W : Type 0} (os : Os W) where
  -- If the processes can be listed, the window shows exactly the rows that were found after
  -- loading, none of them selected, and nothing else of it has changed.
  pub load_processes_lem :
      (w w' : W) (win : Window) (rows : List ProcRow)
      → list_rows os w ≡ (ok rows, w')
      → load_processes os (w, win) ≡ (ok tt, (w', record win { rows = rows; selected = none }))
  unfolding load_processes clear_rows add_rows
  load_processes_lem w w' win rows found = ground (arith, remove_rows_lem win.rows win)

  -- Without a selected row or a connection the button makes no call: only the result line changes.
  pub on_apply_idle :
      (proxy : Option (Proxy W)) (w : W) (win : Window)
      → (win.selected ≡ none) ⊎ (proxy ≡ none)
      → (text : Text) × (on_apply os proxy (w, win) ≡ (ok tt, (w, record win { result = text })))
  unfolding on_apply set_result
  on_apply_idle proxy w win missing = elim (Option-cases win.selected) [
    | inl e ↦ (codes "Select a process first", ground arith)
    | inr (row, e) ↦ elim missing [
      | inl f ↦ cc
      | inr f ↦ (codes "D-Bus not connected", ground arith)
    ]
  ]

  -- With a row selected, if the service carries the change out and the processes can be listed
  -- then, the window shows the rows found after the change, and the result line names the process
  -- and the value.
  pub on_apply_done :
      (proxy : Proxy W) (row : ProcRow) (rows : List ProcRow) (w w₁ w₂ : W) (win : Window)
      → win.selected ≡ some row
      → proxy.set_process_priority row.pid win.nice_spin w ≡ (ok true, w₁)
      → list_rows os w₁ ≡ (ok rows, w₂)
      → on_apply os (some proxy) (w, win) ≡ (
        ok tt,
        (
          w₂,
          record win {
            result =
                codes "PID "
                ++ show_ℤ row.pid
                ++ codes " -> nice "
                ++ show_ℤ win.nice_spin
                ++ codes ": OK";
            rows = rows;
            selected = none;
          },
        ),
      )
  unfolding on_apply set_result apply_to
  on_apply_done proxy row rows w w₁ w₂ win chosen done found =
      let shown =
        load_processes_lem w₁ w₂
          (record win {
            result =
                codes "PID "
                ++ show_ℤ row.pid
                ++ codes " -> nice "
                ++ show_ℤ win.nice_spin
                ++ codes ": OK";
          })
          rows found in
      ground (arith, shown)
