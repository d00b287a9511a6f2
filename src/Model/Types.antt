-- ===== src/Model/Types.antt =====
-- The data of the domain: crates/netlane-core/src/model.rs and the planned rule of planning.rs.
-- A text is its code points; a `u64`, `u32` or `u16` is a number whose range is stated where a
-- theorem needs it.
use netlane.Prelude.{
  ℕ, Bool, true, false, not, ◌&&◌, List, [], ◌∷◌, Option, none, some, Text, str_eq, ◌==◌, ◌≡◌, refl,
  arith, str_eq_sound,
}

-- `RouteMode`
pub data RouteMode : Type 0 where
  automatic ethernet wifi blocked : RouteMode

abbrev pub mode_eq : RouteMode → RouteMode → Bool
mode_eq RouteMode.automatic RouteMode.automatic = true
mode_eq RouteMode.ethernet RouteMode.ethernet = true
mode_eq RouteMode.wifi RouteMode.wifi = true
mode_eq RouteMode.blocked RouteMode.blocked = true
mode_eq _ _ = false

-- `RoutingPolicy`, over the type of the values of `additional_data`.
pub record RoutingPolicy (Value : Type 0) : Type 0 where
  pub application_id : Text
  pub executable_path : Option Text
  pub interface_id : Option Text
  pub interface_type_hint : Option Text
  pub route_mode : RouteMode
  pub fallback_interface_id : Option Text
  pub enabled : Bool
  pub include_related_executables : Bool
  pub additional_data : List (Text × Value)

-- `Adapter`
pub record Adapter : Type 0 where
  pub id : Text
  pub name : Text
  pub kind : Text
  pub addresses : List Text
  pub connected : Bool
  pub has_gateway : Bool
  pub luid : ℕ
  pub ipv4 : Bool
  pub ipv6 : Bool
  pub received : Option ℕ
  pub sent : Option ℕ

-- `Connection`
pub record Connection : Type 0 where
  pub pid : ℕ
  pub name : Text
  pub executable : Option Text
  pub protocol : Text
  pub local_address : Text
  pub local_port : ℕ
  pub remote_address : Text
  pub remote_port : ℕ
  pub interface : Option Text

-- `PlannedRule`
pub record PlannedRule : Type 0 where
  pub application : Text
  pub executable : Option Text
  pub mode : RouteMode
  pub interface_id : Option Text
  pub luid : ℕ
  pub ipv4 : Bool
  pub ipv6 : Bool
  pub detail : Text

-- The derived `PartialEq` of `Option<String>`, `PlannedRule` and `[PlannedRule]`.
abbrev pub option_eq : Option Text → Option Text → Bool
option_eq none none = true
option_eq none (some t) = false
option_eq (some s) none = false
option_eq (some s) (some t) = str_eq s t

abbrev pub bool_eq : Bool → Bool → Bool
bool_eq true b = b
bool_eq false b = not b

unfoldable pub rule_eq : PlannedRule → PlannedRule → Bool
rule_eq r s =
    str_eq r.application s.application
    && option_eq r.executable s.executable
    && mode_eq r.mode s.mode
    && option_eq r.interface_id s.interface_id
    && r.luid == s.luid
    && bool_eq r.ipv4 s.ipv4
    && bool_eq r.ipv6 s.ipv6
    && str_eq r.detail s.detail

unfoldable pub rules_eq : List PlannedRule → List PlannedRule → Bool
unfolding rule_eq
rules_eq [] [] = true
rules_eq [] (s ∷ ss) = false
rules_eq (r ∷ rs) [] = false
rules_eq (r ∷ rs) (s ∷ ss) = rule_eq r s && rules_eq rs ss

pub mode_eq_sound : (m n : RouteMode) → mode_eq m n ≡ true → m ≡ n
mode_eq_sound m n h = ground arith

option_eq_sound : (a b : Option Text) → option_eq a b ≡ true → a ≡ b
option_eq_sound none none h = refl
option_eq_sound none (some t) h = cc
option_eq_sound (some s) none h = cc
option_eq_sound (some s) (some t) h = cc (str_eq_sound s t h)

rule_eq_sound : (r s : PlannedRule) → rule_eq r s ≡ true → r ≡ s
unfolding rule_eq
rule_eq_sound r s h = ground (
  arith,
  str_eq_sound r.application s.application,
  option_eq_sound r.executable s.executable,
  mode_eq_sound r.mode s.mode,
  option_eq_sound r.interface_id s.interface_id,
  str_eq_sound r.detail s.detail,
)

pub rules_eq_sound : (rs ss : List PlannedRule) → rules_eq rs ss ≡ true → rs ≡ ss
unfolding rules_eq
rules_eq_sound [] [] h = refl
rules_eq_sound [] (s ∷ ss) h = cc
rules_eq_sound (r ∷ rs) [] h = cc
rules_eq_sound (r ∷ rs) (s ∷ ss) h = ground (arith, rule_eq_sound r s, rules_eq_sound rs ss)
