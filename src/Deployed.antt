-- ===== src/Deployed.antt =====
-- iso-profile/airootfs/opt/aimos/ai-daemon: the copy of the daemon that goes into the image. Its
-- modules have the text of ai-daemon, but for the heuristics, which are older, the version of the
-- D-Bus object, and the two functions of the kernel interface that it lacks.
pub mod Heuristics
pub mod Daemon
pub mod Outcome
pub mod Agrees
pub mod Unconnected
pub mod Rows
pub mod RuleRows
pub mod Recorded
