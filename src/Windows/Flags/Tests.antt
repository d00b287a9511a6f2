-- ===== src/Windows/Flags/Tests.antt =====
-- Witnesses and tests for crates/netlane-windows/src/flags.rs.
use netlane.Prelude.{Bool, true, false, [], ◌∷◌, Text, text, str_eq, is_in, ◌≡◌, refl}
use netlane.Windows.Flags.{
  TemporaryFlags, ipv6, new, enable, enable_read, activate, restore, restore_all, restore_one,
  switch_off,
}
use netlane.Windows.Flags.Memory.{memory_settings, memory_settings-IsSettings, half_on}
use netlane.Windows.Flags.Restored.{enable-restore}

abbrev enabled : TemporaryFlags (Text → Bool)
enabled = (enable memory_settings true (new memory_settings half_on)).1

enable-changed : enabled.changed ≡ ipv6 ∷ []
unfolding enable enable_read activate text str_eq
enable-changed = refl

enable-restore_example :
    (memory_settings-IsSettings.value ipv6 (restore memory_settings enabled).1.settings
      ≡ memory_settings-IsSettings.value ipv6 half_on)
    × (is_in (restore memory_settings enabled).1.changed ipv6 ≡ false)
unfolding enable enable_read activate restore restore_all restore_one switch_off text str_eq
    memory_settings-IsSettings
enable-restore_example = enable-restore memory_settings-IsSettings true half_on refl ipv6
