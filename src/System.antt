-- ===== src/System.antt =====
-- The whole system as steps of the kernel: what any program of the machine can do to the tasks, the
-- daemon among them.
pub mod Steps
pub mod Programs
