-- ===== src/Log/Levels.antt =====
-- Which messages the logger of mac/chatkit/cim/base/log.cpp lets through at the levels of
-- `setLevel`.
use coffee_chat_desktop.Prelude.{ℕ, ◌-◌, ◌≡◌, ◌≤◌, ◌↔◌, Bool, true, arith}
use coffee_chat_desktop.Log.{
  level_debug, registered, spdlog_level, set_level, Spdlog, IsSpdlog, call,
}

module _ (spdlog : Spdlog) (laws : IsSpdlog spdlog) where
  -- On the logger that the constructor makes, in either build, once its level was set to one of 0
  -- to 6: a message of the kind that `setLevel` counts from 1, trace, to 6, critical, reaches the
  -- console, and likewise the file, exactly when the level is not 0, the kind is not below it, and
  -- it is not trace.
  pub set_level-call :
      (debug_build : Bool) (level kind : ℕ)
      → 1 ≤ kind
      → kind ≤ 6
      → (((call spdlog (kind - 1) (set_level level (registered debug_build))).0 ≡ true)
          ↔ ((1 ≤ level) × (level ≤ kind) × (2 ≤ kind)))
        × (((call spdlog (kind - 1) (set_level level (registered debug_build))).1 ≡ true)
            ↔ ((1 ≤ level) × (level ≤ kind) × (2 ≤ kind)))
  unfolding call set_level registered spdlog_level
  set_level-call debug_build level kind low high =
      let logger = spdlog_level level in
      let law = laws.reaches_iff logger level_debug (kind - 1) in
      let reaches : (spdlog.reaches logger level_debug (kind - 1) ≡ true)
          ↔ ((1 ≤ level) × (level ≤ kind) × (2 ≤ kind)) =
        (λ h. ground (arith, law.0 h), λ h. law.1 (ground (arith, h), ground (arith, h))) in
      (reaches, reaches)
