-- ===== src/Logger.antt =====
-- logger/logger.go: the methods of `SimpleLogger` and the functions of the package. What they print is a list
-- of calls of fmt.Println and fmt.Printf with their arguments; what fmt makes of them is not a part of this.
pub mod Levels
use avacadovnc.Common.{ℕ, List, [], ◌∷◌, map, String, leb, if◌then◌else◌}

-- An argument of fmt: a text, an argument of the caller, or the caller's whole slice.
pub data Value (A : Type 0) : Type 0 where
  text : String → Value A
  given : A → Value A
  slice : List A → Value A

pub data Printed (A : Type 0) : Type 0 where
  println : List (Value A) → Printed A
  -- the format is the caller's between two texts
  printf : String → A → String → List (Value A) → Printed A

-- The constants of `LogLevel`.
abbrev pub LogLevel : Type 0
LogLevel = ℕ

abbrev level_trace : LogLevel
level_trace = 0

abbrev level_debug : LogLevel
level_debug = 1

abbrev level_info : LogLevel
level_info = 2

abbrev level_warn : LogLevel
level_warn = 3

abbrev level_error : LogLevel
level_error = 4

abbrev level_fatal : LogLevel
level_fatal = 5

-- A call: of a method without a format, or of one with it.
pub data Call (A : Type 0) : Type 0 where
  trace debug info warn error fatal : List A → Call A
  tracef debugf infof debugf_no_cr warnf errorf fatalf : A → List A → Call A

-- `if sl.level <= level { fmt.Println(prefix, v...) }`
abbrev println_from : {A : Type 0} → LogLevel → String → LogLevel → List A → List (Printed A)
println_from level prefix own v =
    if leb own level then println (text prefix ∷ map given v) ∷ [] else []

abbrev printf_from :
    {A : Type 0} → LogLevel → String → String → LogLevel → A → List (Value A) → List (Printed A)
printf_from level prefix end own format v =
    if leb own level then printf prefix format end v ∷ [] else []

-- The methods of a logger with the level `own`.
log : {A : Type 0} → LogLevel → Call A → List (Printed A)
log own (trace v) = println_from level_trace "[Trace]" own v
log own (tracef f v) = printf_from level_trace "[Trace] " "\n" own f (map given v)
log own (debug v) = println_from level_debug "[Debug]" own v
log own (debugf f v) = printf_from level_debug "[Debug] " "\n" own f (map given v)
log own (info v) = println_from level_info "[Info ]" own v
log own (debugf_no_cr f v) = printf_from level_debug "[Info ] " "" own f (map given v)
log own (infof f v) = printf_from level_info "[Info ] " "\n" own f (map given v)
log own (warn v) = println_from level_warn "[Warn ]" own v
log own (warnf f v) = printf_from level_warn "[Warn ] " "\n" own f (map given v)
log own (error v) = println_from level_error "[Error]" own v
log own (errorf f v) = printf_from level_error "[Error] " "\n" own f (map given v)
log own (fatal v) = println_from level_fatal "[Fatal]" own v
-- `v`, not `v...`
log own (fatalf f v) = printf_from level_fatal "[Fatal] " "\n" own f (slice v ∷ [])

-- The functions of the package call the methods of `simpleLogger`, of the same name but for one.
package_log : {A : Type 0} → LogLevel → Call A → List (Printed A)
unfolding log
package_log own (debugf f v) = log own (tracef f v)
package_log own call = log own call

-- `simpleLogger`
abbrev pub simple_level : LogLevel
simple_level = level_warn
