-- ===== src/Machine/Beside.antt =====
-- A machine beside a further piece of state, which its calls leave alone.
use ai_m_os.Common.Action.{lift}
use ai_m_os.Machine.{Os}

abbrev pub beside_os : {W : Type 0} (S : Type 0) → Os W → Os (W × S)
beside_os S os = record {
  path_exists = λ p. lift (os.path_exists p);
  read_text = λ p. lift (os.read_text p);
  write_text = λ p t. lift (os.write_text p t);
  scandir = λ p. lift (os.scandir p);
  getpriority = λ pid. lift (os.getpriority pid);
  setpriority = λ pid n. lift (os.setpriority pid n);
}
