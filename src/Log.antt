-- ===== src/Log.antt =====
-- mac/chatkit/cim/base/log.h and log.cpp: the one logger, its levels, and where it writes. What
-- spdlog does with a message is a parameter.
pub mod Levels
pub mod Places
use coffee_chat_desktop.Prelude.{
  ℕ, ◌-◌, Bool, true, false, List, [], ◌∷◌, ◌++◌, Option, none, some, Outcome, ok, abort, ◌==◌,
  if◌then◌else◌, ◌≡◌, ◌≤◌, ◌↔◌,
}
use coffee_chat_desktop.Prelude.Text.{codes}
use coffee_chat_desktop.Prelude.Decimal.{decimal}
use coffee_chat_desktop.Files.Directories.{FileSystem, create_directory}

-- `spdlog::level`
abbrev pub level_trace : ℕ
level_trace = 0

abbrev pub level_debug : ℕ
level_debug = 1

abbrev pub level_info : ℕ
level_info = 2

abbrev pub level_warn : ℕ
level_warn = 3

abbrev pub level_err : ℕ
level_err = 4

abbrev pub level_critical : ℕ
level_critical = 5

abbrev pub level_off : ℕ
level_off = 6

-- The last part of `__FILE__`: behind the last separator, or all of it.
unfoldable pub behind_separator : List ℕ → Option (List ℕ)
behind_separator [] = none
behind_separator (c ∷ cs) =
    let rest = behind_separator cs in
    elim rest [ some name ↦ some name | none ↦ if c == b'/' then some cs else none ]

unfoldable pub file_name : List ℕ → List ℕ
unfolding behind_separator
file_name path = elim (behind_separator path) [ none ↦ path | some name ↦ name ]

-- `suffix(msg)`, at a line of a function in a file.
unfoldable pub suffix : List ℕ → List ℕ → ℕ → List ℕ → List ℕ
unfolding file_name
suffix file function line msg =
    msg
    ++ (codes "  <"
        ++ (file_name file
            ++ (codes "> <" ++ (function ++ (codes "> <" ++ (decimal line ++ codes ">"))))))

-- `nml_logger`, with the levels of its two sinks and the level from which it flushes.
pub record ZLogger : Type 0 where
  pub level : ℕ
  pub console_level : ℕ
  pub daily_level : ℕ
  pub flush_level : ℕ

-- The logger that the constructor registers, in a build with `_DEBUG` or without.
unfoldable pub registered : Bool → ZLogger
registered debug_build = record {
  level = if debug_build then level_trace else level_info;
  console_level = level_debug;
  daily_level = level_debug;
  flush_level = level_warn;
}

-- `setLevel(level)`, with what it makes of a level that is not negative.
unfoldable pub spdlog_level : ℕ → ℕ
spdlog_level level = elim (level == 0) [ true ↦ level_off | false ↦ level - 1 ]

unfoldable pub set_level : ℕ → ZLogger → ZLogger
unfolding spdlog_level
set_level level logger = record logger { level = spdlog_level level }

-- Whether a message gets through a logger of a level to a sink of a level.
pub record Spdlog : Type 0 where
  pub reaches : ℕ → ℕ → ℕ → Bool

-- It is at neither level too small.
pub record IsSpdlog (spdlog : Spdlog) : Type 0 where
  pub reaches_iff :
      (logger sink message : ℕ)
      → (spdlog.reaches logger sink message ≡ true) ↔ ((logger ≤ message) × (sink ≤ message))

module _ (spdlog : Spdlog) where
  -- `SPDLOG_LOGGER_CALL_(level, ...)`: whether the console gets the message, and whether the file
  -- does.
  unfoldable pub call : ℕ → ZLogger → Bool × Bool
  call level logger = (
    spdlog.reaches logger.level logger.console_level level,
    spdlog.reaches logger.level logger.daily_level level,
  )

  -- `LogCriticalIf(b, ...)`
  unfoldable pub log_critical_if : Bool → ZLogger → Bool × Bool
  unfolding call
  log_critical_if b logger = if b then call level_critical logger else (false, false)

-- What constructing the daily sink asks of spdlog: whether it opens "logs/log.log" or throws, and
-- what the system is then.
pub record DailySink (fs : FileSystem) : Type 0 where
  pub opens_file : fs.World → Bool × fs.World

module _ (fs : FileSystem) (sink : DailySink fs) where
  open sink use {opens_file}

  -- A logger, no logger where the constructor throws, or a stop.
  abbrev pub Constructed : Type 0
  Constructed = Option (Outcome (Option ZLogger × fs.World))

  -- The sinks, and the logger over them. No other logger has its name, so that it is registered.
  unfoldable pub with_sinks : Bool → fs.World → Constructed
  unfolding registered
  with_sinks debug_build w =
      let (opened, w') = opens_file w in
      some (ok (if opened then some (registered debug_build) else none, w'))

  -- Behind `CreateDirectory`; whether the directory was made does not matter.
  unfoldable pub logs_made : Bool → Option (Outcome (Bool × fs.World)) → Constructed
  unfolding with_sinks
  logs_made debug_build none = none
  logs_made debug_build (some abort) = some abort
  logs_made debug_build (some (ok (done, w))) = with_sinks debug_build w

  -- `ZLogger()`
  unfoldable pub create : Bool → fs.World → Constructed
  unfolding logs_made with_sinks
  create debug_build w = elim (fs.accessible w (codes "logs")) [
    | true ↦ with_sinks debug_build w
    | false ↦ logs_made debug_build (create_directory fs (some (codes "logs" ++ (0 ∷ []))) w)
  ]

  -- `GetInstance()`, which makes the logger when it is asked for and there is none yet.
  unfoldable pub get_instance : Option ZLogger → Bool → fs.World → Constructed
  unfolding create
  get_instance none debug_build w = create debug_build w
  get_instance (some logger) debug_build w = some (ok (some logger, w))
