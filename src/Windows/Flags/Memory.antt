-- ===== src/Windows/Flags/Memory.antt =====
-- Route policies in memory, for the tests of crates/netlane-windows/src/flags.rs and of its clients.
use netlane.Prelude.{Bool, false, Text, str_eq, if◌then◌else◌, ◌≡◌, refl, arith, ok}
use netlane.Windows.Flags.{RoutePolicySettings, ipv4}
use netlane.Windows.Flags.Noted.{IsSettings}

abbrev pub Policies : Type 0
Policies = Text → Bool

abbrev pub memory_settings : RoutePolicySettings Policies
memory_settings = record {
  read = λ f s. (ok (s f), s);
  set_active = λ f b s. (ok tt, λ g. if str_eq f g then b else s g);
}

pub memory-read : (b c : Bool) → ok b ≡ ok c → c ≡ b
memory-read b c h = ground (arith, h)

pub memory-set : (b c d : Bool) → b ≡ false → (if b then c else d) ≡ d
memory-set b c d h = ground (arith, h)

unfoldable pub memory_settings-IsSettings : IsSettings memory_settings
memory_settings-IsSettings = record {
  value = λ f s. s f;
  value_read = λ f g s. refl;
  read_value = λ f s b h. memory-read (s f) b h;
  value_set = λ f g b s h. memory-set (str_eq f g) b (s g) h;
}

-- Only IPv4 has its route policies on.
abbrev pub half_on : Policies
half_on f = str_eq f ipv4
