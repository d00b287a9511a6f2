-- ===== src/Agent/OneShot/Kept.antt =====
-- What both sides of crates/netlane-agent/src/default_connection.rs guarantee together.
use netlane.Prelude.{
  true, List, get_elem?, none, some, Text, text, ◌≡◌, ◌⊎◌, inl, inr, refl, sym, ap, ◌∙◌, subst,
  Bool-cases, false, arith, Result, ok, err, ensure, ◌>>◌, Result-cases, >>=-eq-ok, ensure-eq-ok,
}
use netlane.DefaultConnection.{Request, OperationResult, Receipt}
use netlane.DefaultConnection.Plan.{validate}
use netlane.DefaultConnection.Requests.{verify_after}
use netlane.DefaultConnection.Apply.{Settings, apply, revert}
use netlane.Windows.Protocol.{Message}
use netlane.Agent.OneShot.{
  is_default_hello, is_accepted, is_alive, result_of, Answers, check_success, exchange, Calls,
  Served, acknowledged, conclude, serve_applied, serve_request, serve,
}

-- The messages that arrive are those that the other side has sent, in order.
pub record IsDelivered {V : Type 0} (q : Request) (answers : Answers V) (calls : Calls V)
    (sent : List (Message V)) : Type 0 where
  pub request : (q' : Request) → calls.request ≡ ok (Message.default_apply q') → q' ≡ q
  pub response : (m : Message V) → answers.response ≡ ok m → get_elem? sent 1 ≡ some m
  pub finish : (m : Message V) → answers.finish ≡ ok m → get_elem? sent 2 ≡ some m

module _ {V : Type 0} (q : Request) (answers : Answers V) (result : OperationResult) where
  -- A result that the panel accepts came as the response, was verified, and was confirmed.
  pub exchange-inversion :
      exchange q answers ≡ ok result
      → (response : Message V) × (finish : Message V) × (answers.response ≡ ok response)
        × (result_of response ≡ ok result)
        × (check_success q result ≡ ok tt)
        × (answers.finish ≡ ok finish)
        × (is_accepted finish ≡ true)
  unfolding exchange
  exchange-inversion h =
      let (hello, _, h1) = >>=-eq-ok answers.greeting _ h in
      let (_, _, h2) = >>=-eq-ok (ensure (is_default_hello hello) _) _ h1 in
      let (_, _, h3) = >>=-eq-ok answers.request_sent _ h2 in
      let (response, came, h4) = >>=-eq-ok answers.response _ h3 in
      let (r, read, h5) = >>=-eq-ok (result_of response) _ h4 in
      let (_, _, h6) = >>=-eq-ok (validate r.snapshot) _ h5 in
      let (_, checked, h7) = >>=-eq-ok (check_success q r) _ h6 in
      let (_, _, h8) = >>=-eq-ok answers.ack_sent _ h7 in
      let (finish, ended, h9) = >>=-eq-ok answers.finish _ h8 in
      let (_, accepted, h10) = >>=-eq-ok (ensure (is_accepted finish) _) _ h9 in
      let same : r ≡ result = cc in
      (
        response,
        finish,
        came,
        read ∙ h10,
        ap (check_success q) (sym same) ∙ checked,
        ended,
        ensure-eq-ok (is_accepted finish) _ accepted,
      )

-- A second message that carries a result, and a third that accepts it, come only from a change that was
-- applied and acknowledged.
module _ {W V : Type 0} (settings : Settings W) where
  conclude-finish :
      (calls : Calls V) (receipt : Receipt) (r : Result (Unit {0})) (w : W) (m n : Message V)
      (result : OperationResult)
      → get_elem? (conclude settings calls receipt (r, w)).sent 1 ≡ some m
      → result_of m ≡ ok result
      → get_elem? (conclude settings calls receipt (r, w)).sent 2 ≡ some n
      → (r ≡ ok tt)
        × (receipt.result ≡ result)
        × ((conclude settings calls receipt (r, w)).system ≡ w)
  unfolding conclude
  conclude-finish calls receipt (ok u) w m n result h k l = ground (arith, h, k)
  conclude-finish calls receipt (err e) w m n result h k l = cc

  is_alive-state :
      (m : Message V) (w : W)
      → (is_alive settings m w).0 ≡ true
      → (is_alive settings m w).1 ≡ (settings.alive w).1
  is_alive-state Message.default_ack w h = refl
  is_alive-state _ w h = cc

  -- An acknowledgement that counts is followed by one question whether the window lives.
  acknowledged-state :
      (calls : Calls V) (w : W) (u : Unit {0})
      → (acknowledged settings calls w).0 ≡ ok u
      → (acknowledged settings calls w).1 ≡ (settings.alive w).1
  unfolding acknowledged
  acknowledged-state calls w u h = elim (Result-cases (calls.result_sent >> calls.ack)) [
    | inr (m, e) ↦ absurd (ground (arith, h, e))
    | inl (m, e) ↦
        let t = text "Confirmação de recebimento inválida ou janela encerrada." in
        let asked : ensure (is_alive settings m w).0 t ≡ ok u = ground (arith, h, e) in
        let live = ensure-eq-ok (is_alive settings m w).0 t asked in
        simp (e, acknowledged) (is_alive-state m w live)
  ]

  serve_applied-accepted :
      (calls : Calls V) (r : Result Receipt) (v : W) (m n : Message V) (result : OperationResult)
      → get_elem? (serve_applied settings calls (r, v)).sent 1 ≡ some m
      → result_of m ≡ ok result
      → get_elem? (serve_applied settings calls (r, v)).sent 2 ≡ some n
      → (receipt : Receipt) × (r ≡ ok receipt)
        × (receipt.result ≡ result)
        × ((serve_applied settings calls (r, v)).system ≡ (settings.alive v).1)
  unfolding serve_applied
  serve_applied-accepted calls (err e) v m n result h k l = cc
  serve_applied-accepted calls (ok receipt) v m n result h k l =
      let o = acknowledged settings calls v in
      let (good, same, left) = conclude-finish calls receipt o.0 o.1 m n result h k l in
      (receipt, refl, same, left ∙ acknowledged-state calls v tt good)

  serve-accepted :
      (calls : Calls V) (q : Request) (w : W) (message m n : Message V) (result : OperationResult)
      → ((q' : Request) → message ≡ Message.default_apply q' → q' ≡ q)
      → get_elem? (serve_request settings calls message w).sent 1 ≡ some m
      → result_of m ≡ ok result
      → get_elem? (serve_request settings calls message w).sent 2 ≡ some n
      → (receipt : Receipt) × ((apply settings q w).0 ≡ ok receipt)
        × (receipt.result ≡ result)
        × ((serve_request settings calls message w).system
            ≡ (settings.alive (apply settings q w).1).1)
  unfolding serve_request
  serve-accepted calls q w (Message.default_apply q') m n result asked h k l =
      let o = apply settings q' w in
      let (receipt, e, same, left) = serve_applied-accepted calls o.0 o.1 m n result h k l in
      let this = asked q' refl in
      (
        receipt,
        ap (λ p. (apply settings p w).0) (sym this) ∙ e,
        same,
        left ∙ ap (λ p. (settings.alive (apply settings p w).1).1) this,
      )
  serve-accepted calls q w _ m n result asked h k l = cc

  -- If the panel accepts a result, over messages that arrive as they were sent, then the elevated side has
  -- applied this very request to the system with this result, has changed nothing since, and a result
  -- that reports success has been verified.
  pub exchange-serve :
      (calls : Calls V) (q : Request) (answers : Answers V) (w : W) (result : OperationResult)
      → IsDelivered q answers calls (serve settings calls w).sent
      → exchange q answers ≡ ok result
      → (receipt : Receipt) × ((apply settings q w).0 ≡ ok receipt)
        × (receipt.result ≡ result)
        × ((serve settings calls w).system ≡ (settings.alive (apply settings q w).1).1)
        × (result.success ≡ true → verify_after q result.snapshot ≡ ok tt)
  unfolding serve
  exchange-serve calls q answers w result delivered h =
      let (m, n, came, read, checked, ended, _) = exchange-inversion q answers result h in
      let first = delivered.response m came in
      let second = delivered.finish n ended in
      elim (Result-cases (calls.hello_sent >> calls.request)) [
        | inr (x, e) ↦ absurd (ground (arith, e, first))
        | inl (message, e) ↦
            let (_, _, asked) = >>=-eq-ok calls.hello_sent _ e in
            let own : (serve settings calls w) ≡ serve_request settings calls message w =
              rw (e, serve) refl in
            let (receipt, a, b, c) =
              serve-accepted calls q w message m n result
                (λ q' s. delivered.request q' (asked ∙ ap ok s))
                (ap (λ s. get_elem? s.sent 1) (sym own) ∙ first) read
                (ap (λ s. get_elem? s.sent 2) (sym own) ∙ second) in
            (receipt, a, b, ap (λ s. s.system) own ∙ c, λ good. ground (arith, checked, good))
      ]

  -- What the elevated side takes for an acknowledgement, once the change is applied: its result went out,
  -- the panel answered with an acknowledgement, and its window still lives.
  abbrev pub Acknowledged : Calls V → W → Type 0
  Acknowledged calls after =
      (calls.result_sent ≡ ok tt)
      × (calls.ack ≡ ok Message.default_ack)
      × ((settings.alive after).0 ≡ true)

  -- What the block returns, and where it leaves the system.
  abbrev Answered : Calls V → W → Result (Unit {0}) × W → Type 0
  Answered calls w (r, v) =
      Acknowledged calls w × (r ≡ ok tt) × (v ≡ (settings.alive w).1)
      ⊎ (¬ Acknowledged calls w)
        × ((m : Text) × (r ≡ err m))
        × ((v ≡ w) ⊎ (v ≡ (settings.alive w).1))

  is_alive-other :
      (calls : Calls V) (m : Message V) (w : W)
      → calls.ack ≡ ok m
      → (is_alive settings m w).0 ≡ false
      → (¬ Acknowledged calls w)
        × (((is_alive settings m w).1 ≡ w) ⊎ ((is_alive settings m w).1 ≡ (settings.alive w).1))
  is_alive-other calls Message.default_ack w e h = (λ a. ground (arith, a.2, h), inr refl)
  is_alive-other calls _ w e h = (λ a. let k = a.1 in cc, inl refl)

  is_alive-ack :
      (m : Message V) (w : W)
      → (is_alive settings m w).0 ≡ true
      → (m ≡ Message.default_ack)
        × ((settings.alive w).0 ≡ true)
        × ((is_alive settings m w).1 ≡ (settings.alive w).1)
  is_alive-ack Message.default_ack w h = (refl, h, refl)
  is_alive-ack _ w h = cc

  acknowledged-Answered :
      (calls : Calls V) (w : W) → Answered calls w (acknowledged settings calls w)
  unfolding acknowledged
  acknowledged-Answered calls w = elim (Result-cases (calls.result_sent >> calls.ack)) [
    | inr (m, e) ↦ inr (
      λ a. ground (arith, a.0, a.1, e),
      (m, rw (e, acknowledged) refl),
      inl (rw (e, acknowledged) refl),
    )
    | inl (m, e) ↦
        let (_, sent, came) = >>=-eq-ok calls.result_sent (λ _. calls.ack) e in
        elim (Bool-cases (is_alive settings m w).0) [
          | inl h ↦
              let (is_ack, live, left) = is_alive-ack m w h in
              inl (
                (sent, came ∙ ap ok is_ack, live),
                rw (e, h, acknowledged) refl,
                simp (e, acknowledged) left,
              )
          | inr h ↦
              let (other, from) = is_alive-other calls m w came h in
              inr (
                other,
                (
                  text "Confirmação de recebimento inválida ou janela encerrada.",
                  rw (e, h, acknowledged) refl,
                ),
                elim from [
                  | inl k ↦ inl (simp (e, acknowledged) k)
                  | inr k ↦ inr (simp (e, acknowledged) k)
                ],
              )
        ]
  ]

  -- The change is acknowledged, stands and is confirmed; or it is not acknowledged, is reverted, nothing is
  -- confirmed, and the process fails.
  abbrev pub KeptOrReverted : Calls V → Receipt → W → Served W V → Type 0
  KeptOrReverted calls receipt after left =
      Acknowledged calls after
        × (left.system ≡ (settings.alive after).1)
        × (get_elem? left.sent 2 ≡ some (Message.default_finished true))
        × (left.result ≡ (calls.finish_sent >> ok tt))
      ⊎ (¬ Acknowledged calls after)
        × (get_elem? left.sent 2 ≡ none)
        × ((m : Text) × (left.result ≡ err m))
        × ((left.system ≡ (revert settings receipt after).1)
            ⊎ (left.system ≡ (revert settings receipt (settings.alive after).1).1))

  conclude-KeptOrReverted :
      (calls : Calls V) (receipt : Receipt) (after : W) (o : Result (Unit {0}) × W)
      → receipt.result.success ≡ true
      → Answered calls after o
      → KeptOrReverted calls receipt after (conclude settings calls receipt o)
  unfolding conclude
  conclude-KeptOrReverted calls receipt after (ok u, v) s (inl (a, _, left)) =
      inl (a, left, refl, simp s refl)
  conclude-KeptOrReverted calls receipt after (ok u, v) s (inr (_, (m, e), _)) = cc
  conclude-KeptOrReverted calls receipt after (err m, v) s (inl (_, e, _)) = cc
  conclude-KeptOrReverted calls receipt after (err m, v) s (inr (other, _, from)) = inr (
    other,
    refl,
    (m, refl),
    elim from [ inl e ↦ inl (simp (s, e) refl) | inr e ↦ inr (simp (s, e) refl) ],
  )

  -- After a change that was applied with success: if its result went out, the panel acknowledged it and the
  -- window still lives, then the change stands, it is confirmed to the panel, and the process fails only if
  -- the confirmation does not go out. Otherwise it is reverted, is not confirmed, and the process fails.
  pub serve-KeptOrReverted :
      (calls : Calls V) (q : Request) (w : W) (receipt : Receipt)
      → calls.hello_sent ≡ ok tt
      → calls.request ≡ ok (Message.default_apply q)
      → (apply settings q w).0 ≡ ok receipt
      → receipt.result.success ≡ true
      → KeptOrReverted calls receipt (apply settings q w).1 (serve settings calls w)
  unfolding serve serve_request serve_applied
  serve-KeptOrReverted calls q w receipt h k a s =
      let after = (apply settings q w).1 in
      let o = acknowledged settings calls after in
      let own : serve settings calls w ≡ conclude settings calls receipt o =
        rw (h, k, a, serve, serve_request, serve_applied) refl in
      subst (KeptOrReverted calls receipt after) (sym own)
        (conclude-KeptOrReverted calls receipt after o s (acknowledged-Answered calls after))
