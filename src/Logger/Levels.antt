-- ===== src/Logger/Levels.antt =====
-- Which calls print.
use avacadovnc.Common.{◌≡◌, List, [], arith, refl, leb, length, if◌then◌else◌}
use avacadovnc.Logger.{
  LogLevel, Call, trace, tracef, debug, debugf, info, infof, debugf_no_cr, warn, warnf, error,
  errorf, fatal, fatalf, log, package_log, simple_level,
}

-- The level that the name of a call stands for.
abbrev severity : {A : Type 0} → Call A → LogLevel
severity (trace v) = 0
severity (tracef f v) = 0
severity (debug v) = 1
severity (debugf f v) = 1
severity (debugf_no_cr f v) = 1
severity (info v) = 2
severity (infof f v) = 2
severity (warn v) = 3
severity (warnf f v) = 3
severity (error v) = 4
severity (errorf f v) = 4
severity (fatal v) = 5
severity (fatalf f v) = 5

-- Every call of a method prints once if the logger's level is not above its own, and not at all otherwise.
log_once :
    {A : Type 0} (own : LogLevel) (call : Call A)
    → length (log own call) ≡ (if leb own (severity call) then 1 else 0)
unfolding log
log_once own call = ground arith

-- On the logger of the package, which stays at its level, every function prints what the method of its own
-- name prints: `Debugf`, which calls the method of another level, prints nothing as well. The calls below
-- the level of warnings print nothing and the others print once.
package_log-log :
    {A : Type 0} (call : Call A)
    → (package_log simple_level call ≡ log simple_level call)
      × (length (package_log simple_level call)
          ≡ (if leb simple_level (severity call) then 1 else 0))
unfolding package_log log
package_log-log call = ground arith

-- At the level of debugging the two differ: `Debugf` of the package prints nothing.
debugf_silent :
    {A : Type 0} (f : A) (v : List A)
    → (package_log 1 (debugf f v) ≡ []) × (length (log 1 (debugf f v)) ≡ 1)
unfolding package_log log
debugf_silent f v = (refl, refl)
