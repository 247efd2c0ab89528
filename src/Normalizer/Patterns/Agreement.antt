-- ===== src/Normalizer/Patterns/Agreement.antt =====
-- The severities that a syslog priority stands for, on the two paths of FromParsed.
use ot_collector.Prelude.{Bool, ℕ, ◌%◌, ◌≡◌, refl, some, true, false, leb, ◌==◌, if◌then◌else◌}
use ot_collector.Normalizers.{severity_name}
use ot_collector.Normalizer.Patterns.{numbered_severity}
use ot_collector.Normalizer.Structured.{normalize_syslog_severity}

agree :
    (critical error warning debug : Bool)
    → severity_name (
        if critical
        then "critical"
        else if error
        then "error"
        else if warning
        then "warn"
        else if debug
        then "debug"
        else "info")
      ≡ severity_name (
          if critical
          then "critical"
          else if error
          then "error"
          else if warning
          then "warning"
          else if debug
          then "debug"
          else "info")
unfolding severity_name
agree true e w d = refl
agree false true w d = refl
agree false false true d = refl
agree false false false true = refl
agree false false false false = refl

-- A priority stands for one severity after Apply, whether the message is structured telemetry, whose
-- severity is read off the priority, or another, whose severity is read off the number that Parse
-- has taken from the priority: the two texts differ for warnings, and normalizeSeverity spells
-- both alike.
pub normalize_syslog_severity-numbered_severity :
    (priority : ℕ)
    → severity_name (normalize_syslog_severity priority)
      ≡ severity_name (numbered_severity (some (priority % 8)))
unfolding normalize_syslog_severity numbered_severity
normalize_syslog_severity-numbered_severity priority =
    let n = priority % 8 in agree (leb n 2) (n == 3) (n == 4) (n == 7)
