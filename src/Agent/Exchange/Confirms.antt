-- ===== src/Agent/Exchange/Confirms.antt =====
-- What a conversation changes in the panel's state, crates/netlane-agent/src/lib.rs.
use netlane.Prelude.{
  ℕ, Bool, true, false, ◌||◌, List, [], ◌∷◌, any, none, some, Text, text, ◌++◌, ◌⊎◌, ◌>>◌, ◌≡◌,
  refl, arith, inl, inr, Result, ok, err, Result-cases,
}
use netlane.Windows.Protocol.{Message}
use netlane.Agent.Panel.{SessionState, Command}
use netlane.Agent.Exchange.{
  Event, received, commanded, ping_due, Talk, Turn, accept_response, accept, on_command,
  exchange_one, drain, exchange_loop, Script, check_greeting, exchange,
}

-- A message by which the agent confirms its cleanup.
abbrev pub is_confirmation : {V : Type 0} → Result (Message V) → Bool
is_confirmation (ok (Message.stopped success detail)) = success
is_confirmation _ = false

abbrev event_confirms : {V : Type 0} → Event V → Bool
event_confirms (received now message) = is_confirmation message
event_confirms _ = false

-- The conversation has such a message.
abbrev pub confirms : {V : Type 0} → Script V → Bool
confirms script = any event_confirms script.events || any is_confirmation script.late

-- The step changes whether the session runs in nothing, and confirms the cleanup only on such a message.
abbrev pub Follows : Bool → SessionState → SessionState → Type 0
Follows seen s t =
    (t.running ≡ s.running) × (t.cleanup_confirmed ≡ true → (s.cleanup_confirmed || seen) ≡ true)

Turn-cases :
    (t : Turn)
    → (t ≡ Turn.goes_on)
      ⊎ ((r : Result (Unit {0})) × (t ≡ Turn.returns r))
      ⊎ ((m : Text) × (t ≡ Turn.broken m))
Turn-cases Turn.goes_on = inl refl
Turn-cases (Turn.returns r) = inr (inl (r, refl))
Turn-cases (Turn.broken m) = inr (inr (m, refl))

module _ {V : Type 0} (pid : ℕ) (path : Text) where
  accept-Follows :
      (message : Result (Message V)) (s : SessionState)
      → Follows (is_confirmation message) s (accept pid path message s).1
  unfolding accept accept_response
  accept-Follows (err m) s = ground arith
  accept-Follows (ok (Message.snapshot i r v rules detail)) s = ground arith
  accept-Follows (ok (Message.error detail)) s = ground arith
  accept-Follows (ok (Message.stopped success detail)) s = ground arith
  accept-Follows (ok (Message.default_hello _)) s = ground arith
  accept-Follows (ok (Message.default_apply _)) s = ground arith
  accept-Follows (ok (Message.default_result _)) s = ground arith
  accept-Follows (ok Message.default_ack) s = ground arith
  accept-Follows (ok (Message.default_finished _)) s = ground arith
  accept-Follows (ok (Message.hello _)) s = ground arith
  accept-Follows (ok (Message.start _ _ _)) s = ground arith
  accept-Follows (ok (Message.update _)) s = ground arith
  accept-Follows (ok Message.ping) s = ground arith
  accept-Follows (ok Message.stop) s = ground arith

  drain-Follows :
      (m : Text) (late : List (Result (Message V))) (s : SessionState)
      → Follows (any is_confirmation late) s (drain pid path m late s).1
  unfolding drain
  drain-Follows m [] s = ground arith
  drain-Follows m (message ∷ rest) s =
      let a = accept-Follows message s in
      let b = drain-Follows m rest (accept pid path message s).1 in
      elim (Result-cases (accept pid path message s).0) [
        | inr (x, e) ↦ rw (e, drain) ground (arith, a)
        | inl (true, e) ↦ rw (e, drain) ground (arith, a)
        | inl (false, e) ↦ rw (e, drain) ground (arith, a, b)
      ]

  exchange_one-Follows :
      (e : Event V) (k : Talk) (s : SessionState)
      → Follows (event_confirms e) s (exchange_one pid path e k s).2
  unfolding exchange_one on_command
  exchange_one-Follows (received now message) k s = accept-Follows message s
  exchange_one-Follows (commanded now none w) k s = ground arith
  exchange_one-Follows (commanded now (some (Command.update_rules _)) w) k s = ground arith
  exchange_one-Follows (commanded now (some (Command.start_session _ _ _)) w) k s = ground arith
  exchange_one-Follows (commanded now (some Command.stop_session) w) k s = ground arith
  exchange_one-Follows (ping_due now w) k s = ground arith

  exchange_loop-Follows :
      (es : List (Event V)) (late : List (Result (Message V))) (k : Talk) (s : SessionState)
      → Follows
          (any event_confirms es || any is_confirmation late)
          s
          (exchange_loop pid path es late k s).1
  unfolding exchange_loop
  exchange_loop-Follows [] late k s = ground arith
  exchange_loop-Follows (e ∷ es) late k s =
      let o = exchange_one pid path e k s in
      let a = exchange_one-Follows e k s in
      elim (Turn-cases o.0) [
        | inl c ↦ rw (c, exchange_loop) ground (arith, a, exchange_loop-Follows es late o.1 o.2)
        | inr (inl (r, c)) ↦ rw (c, exchange_loop) ground (arith, a)
        | inr (inr (m, c)) ↦
            rw (c, exchange_loop) ground
              (
                arith,
                a,
                drain-Follows (text "Canal encerrado sem confirmação de limpeza.: " ++ m) late o.2,
              )
      ]

  pub exchange-Follows :
      (script : Script V) (s : SessionState)
      → Follows (confirms script) s (exchange pid path script s).1
  unfolding exchange
  exchange-Follows script s =
      elim (Result-cases (check_greeting script.greeting >> script.start_sent)) [
        | inr (m, e) ↦ rw (e, exchange) ground arith
        | inl (u, e) ↦ rw (e, exchange) (exchange_loop-Follows script.events script.late _ s)
      ]
