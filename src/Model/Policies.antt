-- ===== src/Model/Policies.antt =====
-- The functions of crates/netlane-core/src/model.rs. What the crate `uuid` and the Unicode tables
-- decide is a parameter.
pub mod Valid
use netlane.Prelude.{
  ℕ, Bool, true, false, not, ◌&&◌, ◌||◌, List, [], ◌∷◌, ◌++◌, reverse, Option, none, some, Text,
  text, trim, str_eq, is_in, is_empty, any, find, select, length, leb, ltb, ◌==◌, if◌then◌else◌,
  eq_ignore_ascii_case, Result, ok, err, ensure, ◌>>=◌, ◌>>◌,
}
use netlane.Prelude.Sorting.{sort_by}
use netlane.Model.Types.{RouteMode, mode_eq, RoutingPolicy, Adapter, Connection}

pub record Library : Type 0 where
  -- `Uuid::parse_str`
  pub parse_uuid : Text → Option ℕ
  -- `str::to_lowercase`
  pub to_lowercase : Text → Text

-- `RouteMode::label`
pub label : RouteMode → Text
label RouteMode.automatic = text "Automático"
label RouteMode.ethernet = text "Ethernet"
label RouteMode.wifi = text "Wi-Fi"
label RouteMode.blocked = text "Bloqueado"

abbrev pub is_separator : ℕ → Bool
is_separator c = c == b'\\' || c == b'/'

-- The characters before the first separator; for the reversed path, those behind the last.
unfoldable pub until_separator : Text → Text
until_separator [] = []
until_separator (c ∷ cs) = if is_separator c then [] else c ∷ until_separator cs

-- `file_name`
unfoldable pub file_name : Text → Text
unfolding until_separator
file_name path = reverse (until_separator (reverse path))

-- `RoutingPolicy::new`
unfoldable pub new : {V : Type 0} → Text → RoutingPolicy V
new path = record {
  application_id = file_name path;
  executable_path = some path;
  interface_id = none;
  interface_type_hint = none;
  route_mode = RouteMode.automatic;
  fallback_interface_id = none;
  enabled = true;
  include_related_executables = true;
  additional_data = [];
}

-- `MAX_POLICIES`
abbrev pub max_policies : ℕ
max_policies = 4096

abbrev pub is_ascii_alphabetic : ℕ → Bool
is_ascii_alphabetic c = (leb b'A' c && leb c b'Z') || (leb b'a' c && leb c b'z')

-- `is_local_path`: the first three bytes are ASCII where it holds, so they are the first three
-- code points.
unfoldable pub is_local_path : Text → Bool
is_local_path (c ∷ d ∷ e ∷ cs) =
    is_ascii_alphabetic c && d == b':' && is_separator e && not (any (λ x. x == 0) (c ∷ d ∷ e ∷ cs))
is_local_path _ = false

-- The order of strings.
abbrev pub text_le : Text → Text → Bool
text_le [] _ = true
text_le (c ∷ cs) [] = false
text_le (c ∷ cs) (d ∷ ds) = ltb c d || (c == d && text_le cs ds)

-- `Adapter::mode`
unfoldable pub mode : Adapter → Option RouteMode
mode a =
    if str_eq a.kind (text "Wireless80211")
    then some RouteMode.wifi
    else (if is_in
          (text "Ethernet"
            ∷ text "Ethernet3Megabit"
            ∷ text "FastEthernetT"
            ∷ text "FastEthernetFx"
            ∷ text "GigabitEthernet"
            ∷ [])
          a.kind
        then some RouteMode.ethernet
        else none)

abbrev pub has_mode : RouteMode → Option RouteMode → Bool
has_mode m none = false
has_mode m (some n) = mode_eq n m

abbrev pub is_candidate : RouteMode → Adapter → Bool
is_candidate m a = a.connected && has_mode m (mode a)

abbrev pub first : {A : Type 0} → List A → Option A
first [] = none
first (x ∷ xs) = some x

-- `Connection::endpoint`, over the printed port.
pub endpoint : Text → Text → Text
endpoint address port =
    if any (λ c. c == b':') address
    then text "[" ++ address ++ text "]:" ++ port
    else address ++ text ":" ++ port

-- `Connection::local_endpoint` and `remote_endpoint`, over the printing of a port.
pub local_endpoint : (ℕ → Text) → Connection → Text
local_endpoint show c = endpoint c.local_address (show c.local_port)

pub remote_endpoint : (ℕ → Text) → Connection → Option Text
remote_endpoint show c =
    if c.remote_port == 0 then none else some (endpoint c.remote_address (show c.remote_port))

module _ (lib : Library) where
  open lib use {parse_uuid, to_lowercase}

  abbrev pub same_parsed : Text → Text → Option ℕ → Option ℕ → Bool
  same_parsed a b (some m) (some n) = m == n
  same_parsed a b _ _ = eq_ignore_ascii_case (trim a) (trim b)

  -- `same_interface`
  unfoldable pub same_interface : Text → Text → Bool
  same_interface a b = same_parsed a b (parse_uuid a) (parse_uuid b)

  -- The test of `interface_id` in `validate_policies`.
  abbrev pub id_passes : Option Text → Bool
  id_passes none = true
  id_passes (some id) = is_empty (trim id) || elim (parse_uuid id) [ none ↦ false | some _ ↦ true ]

  abbrev pub key_of : {V : Type 0} → RoutingPolicy V → Text
  key_of p = to_lowercase (trim p.application_id)

  -- The loop of `validate_policies`, over the names seen so far.
  unfoldable pub check_policies :
      {V : Type 0} → List Text → List (RoutingPolicy V) → Result (Unit {0})
  check_policies names [] = ok tt
  check_policies names (p ∷ ps) =
      ensure (not (is_empty (trim p.application_id)))
        (text "Toda regra deve identificar um aplicativo.")
      >> ensure (not (is_in names (key_of p)))
          (text "Há mais de uma regra para " ++ p.application_id ++ text ".")
      >> ensure (id_passes p.interface_id)
          (text "Identificador de adaptador inválido para " ++ p.application_id ++ text ".")
      >> check_policies (key_of p ∷ names) ps

  -- `validate_policies`
  unfoldable pub validate_policies : {V : Type 0} → List (RoutingPolicy V) → Result (Unit {0})
  unfolding check_policies
  validate_policies ps =
      ensure (leb (length ps) max_policies) (text "Limite de 4096 regras excedido.")
      >> check_policies [] ps

  abbrev pub by_name : Adapter → Adapter → Bool
  by_name a b = text_le (to_lowercase a.name) (to_lowercase b.name)

  abbrev pub choose : Option Text → List Adapter → Option Adapter
  choose none matching = first (sort_by by_name matching)
  choose (some id) matching =
      if is_empty (trim id)
      then first (sort_by by_name matching)
      else find (λ a. same_interface a.id id) matching

  -- `resolve_interface`
  unfoldable pub resolve_interface : {V : Type 0} → RoutingPolicy V → List Adapter → Option Adapter
  resolve_interface p adapters = choose p.interface_id (select (is_candidate p.route_mode) adapters)
