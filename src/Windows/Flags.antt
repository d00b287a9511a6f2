-- ===== src/Windows/Flags.antt =====
-- crates/netlane-windows/src/flags.rs: `TemporaryFlags`, which switches the route policies of a family
-- on for a session and off again. `RoutePolicySettings` is the trait; its state is a value of type `S`.
pub mod Noted
pub mod Restored
pub mod Memory
mod Tests
use netlane.Prelude.{
  Bool, true, false, not, ◌&&◌, ◌||◌, List, [], ◌∷◌, ◌++◌, reverse, Text, text, str_eq, select,
  if◌then◌else◌,
}
use netlane.Prelude.{Result, ok, err, ensure}
use netlane.Prelude.Actions.{Action, ◌>>=◌, ◌>>◌, pure, lift}

-- `trait RoutePolicySettings`
pub record RoutePolicySettings (S : Type 0) : Type 0 where
  pub read : Text → Action S Bool
  pub set_active : Text → Bool → Action S (Unit {0})

-- `struct TemporaryFlags`
pub record TemporaryFlags (S : Type 0) : Type 0 where
  pub settings : S
  pub changed : List Text

abbrev pub ipv4 : Text
ipv4 = text "ipv4"

abbrev pub ipv6 : Text
ipv6 = text "ipv6"

module _ {S : Type 0} (p : RoutePolicySettings S) where
  -- `TemporaryFlags::new`
  abbrev pub new : S → TemporaryFlags S
  new s = record { settings = s; changed = [] }

  -- An operation of the settings, on the flags.
  abbrev pub on_settings : {A : Type 0} → Action S A → Action (TemporaryFlags S) A
  on_settings m t = let (r, s) = m t.settings in (r, record t { settings = s })

  abbrev pub push : Text → Action (TemporaryFlags S) (Unit {0})
  push family t = (ok tt, record t { changed = t.changed ++ family ∷ [] })

  -- The check that ends a round of the loop in `enable`.
  abbrev pub confirm_on : Text → Action (TemporaryFlags S) (Unit {0})
  confirm_on family = on_settings (p.read family) >>= λ active.
      lift (ensure active (text "Ativação não confirmada para " ++ family ++ text "."))

  -- A round of the loop in `enable`.
  unfoldable pub activate : Text → Bool → Action (TemporaryFlags S) (Unit {0})
  activate family original =
      if original
      then pure tt
      else (push family >> (on_settings (p.set_active family true) >> confirm_on family))

  -- `enable`, behind its two readings.
  unfoldable pub enable_read : Bool → Bool → Bool → Action (TemporaryFlags S) (Unit {0})
  enable_read authorized v4 v6 =
      lift (
        ensure (authorized || v4 && v6)
          (text "Autorize routepolicies temporário para IPv4/IPv6 antes de iniciar."))
      >> (activate ipv4 v4 >> activate ipv6 v6)

  -- `TemporaryFlags::enable`
  unfoldable pub enable : Bool → Action (TemporaryFlags S) (Unit {0})
  enable authorized =
      on_settings (p.read ipv4) >>= λ v4. on_settings (p.read ipv6) >>= enable_read authorized v4

  abbrev pub confirm_off : Text → Action S (Unit {0})
  confirm_off family =
      p.read family >>= λ still. lift (ensure (not still) (text "Restauração não confirmada."))

  abbrev pub set_off : Text → Bool → Action S (Unit {0})
  set_off family active = if active then p.set_active family false else pure tt

  -- The closure of `restore`.
  unfoldable pub switch_off : Text → Action S (Unit {0})
  switch_off family = p.read family >>= λ active. set_off family active >> confirm_off family

  -- A round of the loop in `restore`, with the errors so far.
  unfoldable pub restore_one : Text → List Text → TemporaryFlags S → List Text × TemporaryFlags S
  restore_one family errors t =
      let (r, s) = switch_off family t.settings in
      elim r [
        | ok _ ↦ (
          errors,
          record { settings = s; changed = select (λ f. not (str_eq f family)) t.changed },
        )
        | err e ↦ (errors ++ (family ++ text ": " ++ e) ∷ [], record t { settings = s })
      ]

  unfoldable pub restore_all :
      List Text → List Text → TemporaryFlags S → List Text × TemporaryFlags S
  restore_all [] errors t = (errors, t)
  restore_all (family ∷ pending) errors t =
      let (e, u) = restore_one family errors t in restore_all pending e u

  -- `TemporaryFlags::restore`
  unfoldable pub restore : TemporaryFlags S → List Text × TemporaryFlags S
  restore t = restore_all (reverse t.changed) [] t

  -- `Drop`
  unfoldable pub drop : TemporaryFlags S → TemporaryFlags S
  drop t = (restore t).1
