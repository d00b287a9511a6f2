-- ===== src/Planning/Tests.antt =====
-- Runs of planning.rs and of `validate_policies` on a small machine.
use netlane.Prelude.{
  Bool, true, false, List, [], ◌∷◌, ◌++◌, map, none, some, Text, text, str_eq, ◌≡◌, ◌≤◌, ◌↔◌, refl,
  All, Each, length, ok, to_ascii_lowercase, eq_ignore_ascii_case, trim, if◌then◌else◌, is_in,
}
use netlane.Model.{RouteMode, RoutingPolicy, Adapter}
use netlane.Model.Policies.{
  Library, mode, same_interface, file_name, is_local_path, new, resolve_interface,
  validate_policies,
}
use netlane.Model.Policies.Valid.{IsNamed, Distinct, validate_policies_iff}
use netlane.Planning.{
  plan, retire_missing, expand_related, expand_one, root_of, names, explicit_names, is_present,
  retire, retire_rules, find_existing, add_helper, add_helpers, expand_all, expand_policies,
}
use netlane.Planning.Routes.{Resolved, Routed, plan-Routed}
use netlane.Planning.Related as Related
use netlane.Planning.Questions.{AllAsked, answer, ◌>>=◌}
use netlane.Planning.Local.{IsLocal}
use netlane.Planning.Locality.{exists-IsLocal}

abbrev machine : Library
machine = record {
  parse_uuid = λ t. if str_eq t (text "7a") then some 7 else none;
  to_lowercase = to_ascii_lowercase;
}

abbrev steam : RoutingPolicy (Unit {0})
steam = record (new (text "C:\\Steam\\steam.exe")) {
  route_mode = RouteMode.ethernet;
  interface_id = some (text "7a");
}

abbrev cable : Adapter
cable = record {
  id = text "7a";
  name = text "Cabo";
  kind = text "Ethernet";
  addresses = [];
  connected = true;
  has_gateway = true;
  luid = 42;
  ipv4 = true;
  ipv6 = false;
  received = none;
  sent = none;
}

abbrev files : List Text
files =
    text "C:\\Steam\\steam.exe"
    ∷ text "C:\\Steam\\bin\\cef\\cef.win7x64\\steamwebhelper.exe"
    ∷ text "C:\\Steam\\gameoverlayui.exe"
    ∷ []

file_name-steam : file_name (text "C:\\Steam\\steam.exe") ≡ text "steam.exe"
unfolding file_name text
file_name-steam = refl

plan-steam :
    map (λ r. r.luid) (retire_missing (plan machine (steam ∷ []) (cable ∷ [])) (is_in files))
    ≡ 42 ∷ []
unfolding plan retire_missing retire_rules retire is_present answer ◌>>=◌ resolve_interface
    is_local_path text str_eq file_name trim to_ascii_lowercase mode new same_interface
plan-steam = refl

expand-steam :
    map (λ p. p.application_id) (expand_related machine (steam ∷ []) (is_in files))
    ≡ text "steam.exe" ∷ text "steamwebhelper.exe" ∷ text "gameoverlayui.exe" ∷ []
unfolding expand_related expand_policies expand_all add_helpers add_helper find_existing answer
    ◌>>=◌ is_local_path text str_eq file_name to_ascii_lowercase new expand_one eq_ignore_ascii_case
    root_of names explicit_names
expand-steam = refl

plan-Routed_example :
    Each
      (λ p r.
        Resolved machine (cable ∷ []) p (resolve_interface machine p (cable ∷ []))
        × Routed (is_in files) (resolve_interface machine p (cable ∷ [])) p r)
      (steam ∷ [])
      (retire_missing (plan machine (steam ∷ []) (cable ∷ [])) (is_in files))
plan-Routed_example = plan-Routed machine (is_in files) (steam ∷ []) (cable ∷ [])

expand_related-Helper_example :
    (added : List (RoutingPolicy (Unit {0}))) × (expand_related machine (steam ∷ []) (is_in files)
      ≡ steam ∷ [] ++ added)
    × All (Related.Helper (is_in files) (steam ∷ []) (explicit_names machine (steam ∷ []))) added
    × Related.Distinct (is_in files) (steam ∷ []) (explicit_names machine (steam ∷ [])) added
expand_related-Helper_example = Related.expand_related-Helper machine (steam ∷ []) (is_in files)

exists-IsLocal_example :
    AllAsked IsLocal (expand_policies machine (steam ∷ []))
    × AllAsked IsLocal (retire_rules (plan machine (steam ∷ []) (cable ∷ [])))
    × ((f g : Text → Bool)
        → ((t : Text) → is_local_path t ≡ true → f t ≡ g t)
        → (expand_related machine (steam ∷ []) f ≡ expand_related machine (steam ∷ []) g)
          × (retire_missing (plan machine (steam ∷ []) (cable ∷ [])) f
              ≡ retire_missing (plan machine (steam ∷ []) (cable ∷ [])) g))
exists-IsLocal_example =
    exists-IsLocal machine (steam ∷ []) (plan machine (steam ∷ []) (cable ∷ []))

validate_policies_iff_example : (validate_policies machine (steam ∷ []) ≡ ok tt) ↔ (
    (length (steam ∷ []) ≤ 4096)
    × All (IsNamed machine) (steam ∷ [])
    × Distinct machine (steam ∷ []))
validate_policies_iff_example = validate_policies_iff machine (steam ∷ [])
