-- ===== src/Planning.antt =====
-- crates/netlane-core/src/planning.rs: from policies and adapters to the rules of the engine.
pub mod Questions
pub mod Answered
pub mod Routes
pub mod Related
pub mod Local
pub mod Locality
mod Tests
use netlane.Prelude.{
  ℕ, Bool, true, false, not, ◌&&◌, ◌||◌, List, [], ◌∷◌, ◌++◌, map, reverse, Option, none, some,
  Text, text, str_eq, is_in, is_empty, find, if◌then◌else◌, eq_ignore_ascii_case, ◌==◌,
}
use netlane.Planning.Questions.{Asking, done, ask, ◌>>=◌, answer}
use netlane.Model.{RouteMode, mode_eq, RoutingPolicy, Adapter, PlannedRule}
use netlane.Model.Policies.{
  Library, file_name, is_separator, until_separator, is_local_path, resolve_interface,
}

abbrev pub is_actionable : {V : Type 0} → RoutingPolicy V → Bool
is_actionable p = p.enabled && not (mode_eq p.route_mode RouteMode.automatic)

-- The `detail` of a rule.
abbrev pub describe : {V : Type 0} → RoutingPolicy V → Option Adapter → Text
describe p target =
    if not (is_actionable p)
    then text "Windows decide; remover política NetLane."
    else (if mode_eq p.route_mode RouteMode.blocked
        then text "Bloqueio IPv4/IPv6 solicitado."
        else elim target [
          | some a ↦ text "Saída solicitada: " ++ a.name ++ text ". Tráfego ainda não verificado."
          | none ↦ text "Interface selecionada ausente/desconectada; política retirada."
        ])

abbrev pub found : Option Adapter → Bool
found none = false
found (some a) = true

-- The closure of `plan`, once the target is resolved.
pub rule_of : {V : Type 0} → RoutingPolicy V → Option Adapter → PlannedRule
rule_of p target = record {
  application = p.application_id;
  executable = p.executable_path;
  mode =
      if is_actionable p && (mode_eq p.route_mode RouteMode.blocked || found target)
      then p.route_mode
      else RouteMode.automatic;
  interface_id = elim target [ none ↦ none | some a ↦ some a.id ];
  luid = elim target [ none ↦ 0 | some a ↦ a.luid ];
  ipv4 = elim target [ none ↦ true | some a ↦ a.ipv4 ];
  ipv6 = elim target [ none ↦ true | some a ↦ a.ipv6 ];
  detail = describe p target;
}

-- `plan`
pub plan : {V : Type 0} → Library → List (RoutingPolicy V) → List Adapter → List PlannedRule
unfolding rule_of
plan lib policies adapters = map (λ p. rule_of p (resolve_interface lib p adapters)) policies

-- Whether the file of a rule is there; a path that is not local is not asked about.
unfoldable pub is_present : Option Text → Asking Bool
is_present none = done false
is_present (some p) = if is_local_path p then ask p done else done false

abbrev pub withdrawn : PlannedRule → PlannedRule
withdrawn r = record r {
  mode = RouteMode.automatic;
  detail = text "Executável ausente ou remoto; política retirada.";
}

-- One round of `retire_missing`.
unfoldable pub retire : PlannedRule → Asking PlannedRule
retire r =
    if mode_eq r.mode RouteMode.automatic
    then done r
    else (is_present r.executable >>= λ present. done (if present then r else withdrawn r))

-- The loop of `retire_missing`.
unfoldable pub retire_rules : List PlannedRule → Asking (List PlannedRule)
retire_rules [] = done []
retire_rules (r ∷ rs) = retire r >>= λ q. retire_rules rs >>= λ qs. done (q ∷ qs)

-- `retire_missing`
unfoldable pub retire_missing : List PlannedRule → (Text → Bool) → List PlannedRule
retire_missing rules exists = answer exists (retire_rules rules)

-- What stands before the last separator, from the reversed path: `rsplit_once` and its `.0`.
pub before_separator : Text → Option Text
before_separator [] = none
before_separator (c ∷ cs) = if is_separator c then some (reverse cs) else before_separator cs

-- The root of `expand_related`.
unfoldable pub root_of : Text → Option Text
unfolding before_separator
root_of path = before_separator (reverse path)

-- The helpers of Steam.
pub names : List Text
names =
    text "steamwebhelper.exe"
    ∷ text "steamservice.exe"
    ∷ text "steamerrorreporter.exe"
    ∷ text "gameoverlayui.exe"
    ∷ []

abbrev pub folders : Text → List Text
folders name =
    text ""
    ∷ text "bin"
    ∷ text "cef"
    ∷ text "bin\\cef"
    ∷ (if str_eq name (text "steamwebhelper.exe")
        then text "bin\\cef\\cef.win64"
          ∷ text "bin\\cef\\cef.win7x64"
          ∷ text "bin\\cef\\cef.win7"
          ∷ []
        else [])

abbrev pub candidate : Text → Text → Text → Text
candidate root name folder =
    if is_empty folder
    then root ++ text "\\" ++ name
    else root ++ text "\\" ++ folder ++ text "\\" ++ name

-- `result` and `explicit`.
abbrev pub Expansion : Type 0 → Type 0
Expansion V = List (RoutingPolicy V) × List Text

module _ {V : Type 0} where
  -- The policy of a helper that was found.
  abbrev pub related : RoutingPolicy V → Text → Text → RoutingPolicy V
  related p name path = record p {
    application_id = name;
    executable_path = some path;
    include_related_executables = false;
    additional_data = [];
  }

  -- The guards of the outer loop.
  abbrev pub expands : RoutingPolicy V → Text → Bool
  expands p path =
      p.enabled
      && p.include_related_executables
      && not (mode_eq p.route_mode RouteMode.automatic)
      && eq_ignore_ascii_case (file_name path) (text "steam.exe")
      && is_local_path path

-- `find(|p| exists(p))`
unfoldable pub find_existing : List Text → Asking (Option Text)
find_existing [] = done none
find_existing (c ∷ cs) = ask c (λ there. if there then done (some c) else find_existing cs)

module _ {V : Type 0} where
  -- What a search for a helper adds.
  abbrev pub add_found : RoutingPolicy V → Text → Expansion V → Option Text → Expansion V
  add_found p name e none = e
  add_found p name (result, explicit) (some path) =
      (result ++ related p name path ∷ [], name ∷ explicit)

  -- One round of the inner loop.
  unfoldable pub add_helper : RoutingPolicy V → Text → Text → Expansion V → Asking (Expansion V)
  add_helper p root name e =
      if is_in e.1 name
      then done e
      else (find_existing (map (candidate root name) (folders name)) >>= λ found.
          done (add_found p name e found))

  unfoldable pub add_helpers :
      RoutingPolicy V → Text → List Text → Expansion V → Asking (Expansion V)
  add_helpers p root [] e = done e
  add_helpers p root (n ∷ ns) e = add_helper p root n e >>= add_helpers p root ns

  unfoldable pub expand_one : RoutingPolicy V → Option Text → Expansion V → Asking (Expansion V)
  expand_one p none e = done e
  expand_one p (some path) e =
      if expands p path
      then elim (root_of path) [ none ↦ done e | some root ↦ add_helpers p root names e ]
      else done e

  unfoldable pub expand_all : List (RoutingPolicy V) → Expansion V → Asking (Expansion V)
  expand_all [] e = done e
  expand_all (p ∷ ps) e = expand_one p p.executable_path e >>= expand_all ps

module _ {V : Type 0} (lib : Library) where
  -- The names that have a policy of their own.
  pub explicit_names : List (RoutingPolicy V) → List Text
  explicit_names [] = []
  explicit_names (p ∷ ps) =
      lib.to_lowercase p.application_id
      ∷ lib.to_lowercase
          (file_name (elim p.executable_path [ none ↦ p.application_id | some path ↦ path ]))
      ∷ explicit_names ps

  -- The body of `expand_related`.
  unfoldable pub expand_policies : List (RoutingPolicy V) → Asking (Expansion V)
  expand_policies policies = expand_all policies (policies, explicit_names policies)

  -- `expand_related`
  unfoldable pub expand_related : List (RoutingPolicy V) → (Text → Bool) → List (RoutingPolicy V)
  expand_related policies exists = (answer exists (expand_policies policies)).0
