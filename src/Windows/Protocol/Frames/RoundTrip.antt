-- ===== src/Windows/Protocol/Frames/RoundTrip.antt =====
-- What is sent is received, and a frame that breaks off is an error: crates/netlane-windows/src/protocol.rs.
use netlane.Prelude.{
  length-drop, length-take, take-append, drop-append, ℕ, zero, suc, ◌+◌, ◌≤◌, ◌<◌, List, [], ◌∷◌,
  ◌++◌, map, length, take, drop, length-append, append_assoc, append-nil, Text, text, leb, ◌≡◌, ◌≢◌,
  refl, sym, ap, ◌∙◌, subst, arith, inl, inr, ok, err, ensure, Result-cases, >>=-eq-ok,
  ensure-eq-ok, leb→le,
}
use netlane.Windows.Protocol.{Message}
use netlane.Windows.Protocol.Frames.{
  max_message_bytes, Wire, IsWire, to_le_bytes, from_le_bytes, cut, encode, send, receive_body,
  receive, inbox, received, send_all,
}

from_le-to_le :
    (n : ℕ) (bytes : List ℕ)
    → n ≤ max_message_bytes
    → from_le_bytes (take 4 (to_le_bytes n ++ bytes)) ≡ n
from_le-to_le n bytes h = omega arith

module _ {V : Type 0} (wire : Wire V) where
  -- A message that is received takes bytes.
  receive-shorter :
      (bytes : List ℕ) (m : Message V)
      → (receive wire bytes).0 ≡ ok m
      → length (receive wire bytes).1 < length bytes
  unfolding receive receive_body
  receive-shorter bytes m h =
      ground (arith, length-drop 4 bytes, length-drop (from_le_bytes (take 4 bytes)) (drop 4 bytes))

  -- The loop has ended with one error behind its messages once the fuel exceeds the bytes.
  pub inbox-ends :
      (fuel : ℕ) (bytes : List ℕ)
      → length bytes < fuel
      → (ms : List (Message V)) × (e : Text) × (inbox wire fuel bytes ≡ map ok ms ++ err e ∷ [])
  unfolding inbox
  inbox-ends zero bytes h = absurd (omega arith)
  inbox-ends (suc fuel) bytes h = elim (Result-cases (receive wire bytes).0) [
    | inr (e, q) ↦ ([], e, rw (q, inbox) refl)
    | inl (m, q) ↦
        let (ms, e, k) =
          inbox-ends fuel (receive wire bytes).1 (omega (arith, receive-shorter bytes m q)) in
        (m ∷ ms, e, rw (q, inbox) (ap (λ r. ok m ∷ r) k))
  ]

  -- More fuel changes nothing.
  inbox-fuel :
      (fuel more : ℕ) (bytes : List ℕ)
      → length bytes < fuel
      → length bytes < more
      → inbox wire fuel bytes ≡ inbox wire more bytes
  unfolding inbox
  inbox-fuel zero more bytes h k = absurd (omega arith)
  inbox-fuel (suc fuel) zero bytes h k = absurd (omega arith)
  inbox-fuel (suc fuel) (suc more) bytes h k = elim (Result-cases (receive wire bytes).0) [
    | inr (e, q) ↦ rw (q, inbox) refl
    | inl (m, q) ↦
        let s = receive-shorter bytes m q in
        rw (q, inbox)
          (ap (λ r. ok m ∷ r)
            (inbox-fuel fuel more (receive wire bytes).1 (omega (arith, s)) (omega (arith, s))))
  ]

  -- What a frame is made of.
  encode-inversion :
      (m : Message V) (frame : List ℕ)
      → encode wire m ≡ ok frame
      → (b : List ℕ) × (wire.to_vec m ≡ ok b)
        × (length b ≤ max_message_bytes)
        × (to_le_bytes (length b) ++ b ≡ frame)
  unfolding encode
  encode-inversion m frame h =
      let (b, q, k) = >>=-eq-ok (wire.to_vec m) _ h in
      let (u, fits, same) =
        >>=-eq-ok (ensure (leb (length b) max_message_bytes) (text "Mensagem excede 8 MiB.")) _ k in
      (b, q, leb→le (length b) max_message_bytes (ensure-eq-ok _ _ fits), cc)

  receive_body-whole :
      (b rest : List ℕ)
      → 0 < length b
      → length b ≤ max_message_bytes
      → receive_body wire (length b) (b ++ rest) ≡ (wire.from_slice b, rest)
  unfolding receive_body
  receive_body-whole b rest h k =
      ground
        (arith, length-append b rest, ap wire.from_slice (take-append b rest), drop-append b rest)

  receive_body-cut :
      (b part : List ℕ)
      → 0 < length b
      → length b ≤ max_message_bytes
      → length part < length b
      → (receive_body wire (length b) part).0 ≡ err wire.eof
  unfolding receive_body
  receive_body-cut b part h k l = ground arith

  -- The length is read back.
  receive-header :
      (n : ℕ) (bytes : List ℕ)
      → n ≤ max_message_bytes
      → receive wire (to_le_bytes n ++ bytes) ≡ receive_body wire n bytes
  unfolding receive
  receive-header n bytes h = ground (arith, from_le-to_le n bytes h)

  receive-cut :
      (n : ℕ) (b : List ℕ)
      → 0 < length b
      → length b ≤ max_message_bytes
      → n < 4 + length b
      → (receive wire (take n (to_le_bytes (length b) ++ b))).0 ≡ err wire.eof
  unfolding receive
  receive-cut zero b h k l = refl
  receive-cut (suc zero) b h k l = refl
  receive-cut (suc (suc zero)) b h k l = refl
  receive-cut (suc (suc (suc zero))) b h k l = refl
  receive-cut (suc (suc (suc (suc n)))) b h k l =
      ap (λ r. r.0) (receive-header (length b) (take n b) k)
      ∙ receive_body-cut b (take n b) h k (omega (arith, length-take n b))

  module _ (laws : IsWire wire) where
    -- A frame that is there whole is received, and what stands behind it is left.
    receive-encode :
        (m : Message V) (frame rest : List ℕ)
        → encode wire m ≡ ok frame
        → receive wire (frame ++ rest) ≡ (ok m, rest)
    receive-encode m frame rest h =
        let (b, q, fits, same) = encode-inversion m frame h in
        let e : receive wire ((to_le_bytes (length b) ++ b) ++ rest) ≡ (ok m, rest) =
          receive-header (length b) (b ++ rest) fits
          ∙ receive_body-whole b rest (laws.not_empty m b q) fits
          ∙ ap (λ r. (r, rest)) (laws.reads_back m b q) in
        subst (λ f. receive wire (f ++ rest) ≡ (ok m, rest)) same e

    -- A frame that breaks off is the end of the channel.
    receive-cut_frame :
        (m : Message V) (frame : List ℕ) (n : ℕ)
        → encode wire m ≡ ok frame
        → n < length frame
        → (receive wire (take n frame)).0 ≡ err wire.eof
    receive-cut_frame m frame n h k =
        let (b, q, fits, same) = encode-inversion m frame h in
        let size : length frame ≡ 4 + length b = sym (ap length same) ∙ omega arith in
        subst (λ f. (receive wire (take n f)).0 ≡ err wire.eof) same
          (receive-cut n b (laws.not_empty m b q) fits (omega (arith, size)))

    -- The reader takes a whole frame as its message and goes on behind it.
    received-encode :
        (m : Message V) (frame rest : List ℕ)
        → encode wire m ≡ ok frame
        → received wire (frame ++ rest) ≡ ok m ∷ received wire rest
    unfolding inbox
    received-encode m frame rest h =
        let e = receive-encode m frame rest h in
        let s = receive-shorter (frame ++ rest) m (ap (λ r. r.0) e) in
        rw (ap (λ r. r.0) e, inbox)
          (ap (λ r. ok m ∷ inbox wire (length (frame ++ rest)) r.1) e
            ∙ ap (λ r. ok m ∷ r)
                (inbox-fuel (length (frame ++ rest)) (suc (length rest)) rest
                  (omega (arith, s, ap (λ r. length r.1) e)) (omega arith)))

    send_all-refused :
        (m : Message V) (ms : List (Message V)) (x : Text) (pipe p : List ℕ)
        → encode wire m ≡ err x
        → send_all wire (m ∷ ms) pipe ≢ (ok tt, p)
    unfolding send_all send
    send_all-refused m ms x pipe p e h = ground (arith, e, h)

    send_all-first :
        (m : Message V) (ms : List (Message V)) (frame pipe p : List ℕ)
        → encode wire m ≡ ok frame
        → send_all wire (m ∷ ms) pipe ≡ (ok tt, p)
        → send_all wire ms (pipe ++ frame) ≡ (ok tt, p)
    unfolding send_all send
    send_all-first m ms frame pipe p e h = ground (arith, e, h)

    received-send_all :
        (ms : List (Message V)) (pipe p rest : List ℕ)
        → send_all wire ms pipe ≡ (ok tt, p)
        → (sent : List ℕ) × (p ≡ pipe ++ sent)
          × (received wire (sent ++ rest) ≡ map ok ms ++ received wire rest)
    unfolding send_all
    received-send_all [] pipe p rest h = ([], sym (ap (λ r. r.1) h) ∙ sym (append-nil pipe), refl)
    received-send_all (m ∷ ms) pipe p rest h = elim (Result-cases (encode wire m)) [
      | inr (x, e) ↦ absurd (send_all-refused m ms x pipe p e h)
      | inl (frame, e) ↦
          let s : send_all wire ms (pipe ++ frame) ≡ (ok tt, p) =
            send_all-first m ms frame pipe p e h in
          let (sent, q, k) = received-send_all ms (pipe ++ frame) p rest s in
          (
            frame ++ sent,
            q ∙ append_assoc pipe frame sent,
            ap (received wire) (append_assoc frame sent rest)
                ∙ received-encode m frame (sent ++ rest) e
                ∙ ap (λ r. ok m ∷ r) k,
          )
    ]

    received-err :
        (bytes : List ℕ) (x : Text)
        → (receive wire bytes).0 ≡ err x
        → received wire bytes ≡ err x ∷ []
    unfolding inbox
    received-err bytes x h = rw (h, inbox) refl

    -- What the reader hands over of messages sent whole and of one whose write breaks off: the messages,
    -- and the error of the channel's end.
    pub received-send :
        (ms : List (Message V)) (p : List ℕ) (m : Message V) (frame : List ℕ) (n : ℕ) (e : Text)
        → send_all wire ms [] ≡ (ok tt, p)
        → encode wire m ≡ ok frame
        → n < length frame
        → received wire (send wire m (cut n e) p).1 ≡ map ok ms ++ err wire.eof ∷ []
    unfolding send
    received-send ms p m frame n e h q k =
        let (sent, s, got) = received-send_all ms [] p (take n frame) h in
        let pipe : (send wire m (cut n e) p).1 ≡ p ++ take n frame = ground (arith, q) in
        let same : (send wire m (cut n e) p).1 ≡ sent ++ take n frame =
          pipe ∙ ap (λ r. r ++ take n frame) s in
        let broken : received wire (take n frame) ≡ err wire.eof ∷ [] =
          received-err (take n frame) wire.eof (receive-cut_frame m frame n q k) in
        ap (received wire) same ∙ got ∙ ap (λ r. map ok ms ++ r) broken
