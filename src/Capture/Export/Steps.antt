-- ===== src/Capture/Export/Steps.antt =====
-- How crates/netlane-capture/src/reader.rs reads one packet that crates/netlane-capture/src/export.rs wrote.
use netlane.Prelude.{
  ℕ, suc, ◌+◌, ◌*◌, ◌/◌, ◌%◌, ◌^◌, ◌≤◌, ◌<◌, min, Bool, true, ◌&&◌, List, [], ◌++◌, length,
  length-append, take, drop, Option, none, some, Text, ltb, leb, ◌≡◌, refl, sym, ap, ◌∙◌, arith,
  take-append, drop-append,
}
use netlane.Capture.Types.{Packet, CaptureFile, max_packet_bytes}
use netlane.Capture.Reader.Input.{
  Limits, Reading, M, Read, got, failed, ◌>>=◌, ◌>>◌, ask, unwrap, number, le_value, fill, bytes,
  next, next_at,
}
use netlane.Capture.Reader.Retain.{keep, counted, retain, pass_on}
use netlane.Capture.Reader.{pcap_record, pcap_loop, units}
use netlane.Capture.Export.{word, pcap_bytes}

pub le_value-word : (n : ℕ) → n < 2 ^ 32 → le_value (word n) ≡ n
le_value-word n h = omega (arith, h)

-- Four words, read as such.
words : ℕ → ℕ → ℕ → ℕ → List ℕ
words a b c d = word a ++ word b ++ word c ++ word d

module _ {S A B : Type 0} where
  pub got-bind :
      (m : M S A) (f : A → M S B) (r : Reading S) (a : A) (s : Reading S)
      → m r ≡ got (a, s)
      → (m >>= f) r ≡ f a s
  unfolding ◌>>=◌
  got-bind m f r a s e = rw (e, ◌>>=◌) refl

  pub unwrap-bind :
      (o : Option A) (f : A → M S B) (r : Reading S) (a : A)
      → o ≡ some a
      → (unwrap o >>= f) r ≡ f a r
  unfolding ◌>>=◌ unwrap
  unwrap-bind o f r a e = rw (e, ◌>>=◌, unwrap) refl

pub ask-then :
    {S B : Type 0} (b : Bool) (m : Text) (f : M S B) (r : Reading S)
    → b ≡ true
    → (ask b m >> f) r ≡ f r
unfolding ◌>>=◌ ◌>>◌ ask
ask-then b m f r e = rw (e, ◌>>=◌, ◌>>◌, ask) refl

pub fill-append :
    {S : Type 0} (limits : Limits) (n : ℕ) (wanted : Text) (content more : List ℕ) (r : Reading S)
    → r.rest ≡ content ++ more
    → length content ≡ n
    → r.count + n ≤ limits.bytes
    → fill limits n wanted r ≡ got (content, record r { rest = more; count = r.count + n })
unfolding fill
fill-append limits n wanted content more r e f room =
    let sizes : length r.rest ≡ n + length more =
      omega (arith, ap length e, length-append content more, f) in
    let long : leb n (length r.rest) ≡ true = ground (arith, sizes) in
    let small : leb (r.count + min n (length r.rest)) limits.bytes ≡ true =
      ground (arith, sizes, room) in
    let front : take n r.rest ≡ content =
      ap (take n) e ∙ ap (λ k. take k (content ++ more)) (sym f) ∙ take-append content more in
    let back : drop n r.rest ≡ more =
      ap (drop n) e ∙ ap (λ k. drop k (content ++ more)) (sym f) ∙ drop-append content more in
    rw (small, long, front, back, fill) refl

header-number :
    (a b c d : ℕ)
    → a < 2 ^ 32
    → b < 2 ^ 32
    → c < 2 ^ 32
    → d < 2 ^ 32
    → (number true 4 (words a b c d) 0 ≡ some a)
      × (number true 4 (words a b c d) 4 ≡ some b)
      × (number true 4 (words a b c d) 8 ≡ some c)
      × (number true 4 (words a b c d) 12 ≡ some d)
unfolding number words
header-number a b c d ha hb hc hd = (
  ap some (le_value-word a ha),
  ap some (le_value-word b hb),
  ap some (le_value-word c hc),
  ap some (le_value-word d hd),
)

-- The packet that the reader makes of an exported one.
abbrev pub reread : ℕ → ℕ → Packet → ℕ → Packet
reread number offset p ns = record {
  number = number;
  file_offset = offset;
  interface = 0;
  timestamp = some (record { ticks = ns; resolution = 9; offset_seconds = 0 });
  original_len = p.original_len;
  captured_len = length p.bytes % 2 ^ 32;
  bytes = p.bytes;
}

-- The capture with the packet.
abbrev pub with_packet : Packet → ℕ → ℕ → CaptureFile → CaptureFile
with_packet p ns offset c =
    keep true (reread (c.total_packets + 1) offset p ns) (counted (length p.bytes) p.original_len c)

module _ (limits : Limits) where
  retain-got :
      (offset ns : ℕ) (p : Packet) (r : Reading (Unit {0}))
      → limits.retain ≡ true
      → r.capture.total_packets + 1 ≤ limits.records
      → retain none limits 0 offset
          (some (record { ticks = ns; resolution = 9; offset_seconds = 0 }))
          p.original_len
          p.bytes
          r
        ≡ got (tt, record r { capture = with_packet p ns offset r.capture })
  unfolding retain pass_on ◌>>=◌ ◌>>◌ ask
  retain-got offset ns p r e room =
      let fits : leb (r.capture.total_packets + 1) limits.records ≡ true = ground (arith, room) in
      rw (fits, e, retain, ◌>>=◌, ◌>>◌, ask) refl

  bytes-got :
      (limit : ℕ) (content more : List ℕ) (r : Reading (Unit {0}))
      → r.rest ≡ content ++ more
      → length content ≤ limit
      → r.count + length content ≤ limits.bytes
      → bytes limits (length content) limit r
        ≡ got (content, record r { rest = more; count = r.count + length content })
  unfolding bytes
  bytes-got limit content more r e small room =
      ask-then (leb (length content) limit) _ _ r (ground (arith, small))
      ∙ fill-append limits (length content) _ content more r e refl room

  record-got :
      (snap offset ns : ℕ) (p : Packet) (more : List ℕ) (r : Reading (Unit {0}))
      → ns ≤ 4294967295 * 1000000000 + 999999999
      → length p.bytes ≤ snap
      → length p.bytes ≤ p.original_len
      → p.original_len < 2 ^ 32
      → length p.bytes ≤ max_packet_bytes
      → r.rest ≡ p.bytes ++ more
      → r.count + length p.bytes ≤ limits.bytes
      → limits.retain ≡ true
      → r.capture.total_packets + 1 ≤ limits.records
      → pcap_record none limits true 9 snap offset
          (words (ns / 1000000000) (ns % 1000000000) (length p.bytes) p.original_len)
          r
        ≡ got (
          tt,
          record r {
            rest = more;
            count = r.count + length p.bytes;
            capture = with_packet p ns offset r.capture;
          },
        )
  unfolding pcap_record
  record-got snap offset ns p more r time fits whole original short e room kept records =
      let (a, b, c, d) =
        header-number (ns / 1000000000) (ns % 1000000000) (length p.bytes) p.original_len
          (omega (arith, time)) (omega arith) (omega (arith, short)) original in
      let header = words (ns / 1000000000) (ns % 1000000000) (length p.bytes) p.original_len in
      let s = record r { rest = more; count = r.count + length p.bytes } in
      unwrap-bind (number true 4 header 0) _ r _ a
      ∙ unwrap-bind (number true 4 header 4) _ r _ b
      ∙ unwrap-bind (number true 4 header 8) _ r _ c
      ∙ unwrap-bind (number true 4 header 12) _ r _ d
      ∙ ask-then
          (ltb (ns % 1000000000) (units 9)
            && leb (length p.bytes) p.original_len
            && leb (length p.bytes) snap)
          _ _ r (ground (arith, whole, fits))
      ∙ got-bind (bytes limits (length p.bytes) max_packet_bytes) _ r p.bytes s
          (bytes-got max_packet_bytes p.bytes more r e short room)
      ∙ ap
          (λ t.
            retain none limits 0 offset
              (some (record { ticks = t; resolution = 9; offset_seconds = 0 })) p.original_len
              p.bytes s)
          (omega arith)
      ∙ retain-got offset ns p s kept records

  header-got :
      (a b c d : ℕ) (more : List ℕ) (r : Reading (Unit {0}))
      → r.rest ≡ words a b c d ++ more
      → r.count + 16 ≤ limits.bytes
      → next limits 16 r
        ≡ got (some (words a b c d), record r { rest = more; count = r.count + 16 })
  unfolding next next_at words
  header-got a b c d more r e room =
      let tail = drop 1 (words a b c d) in
      let s = record r { rest = tail ++ more; count = r.count + 1 } in
      let small : leb (r.count + 1) limits.bytes ≡ true = ground (arith, room) in
      ap (λ xs. next_at limits 16 xs r) e
      ∙ rw (small, next_at)
          (got-bind (fill limits 15 _) _ s tail (record s { rest = more; count = s.count + 15 })
              (fill-append limits 15 _ tail more s refl refl (omega (arith, room)))
            ∙ ap (λ k. got (some (words a b c d), record r { rest = more; count = k }))
                (omega arith))

  pub turn-got :
      (fuel snap ns : ℕ) (p : Packet) (more : List ℕ) (r : Reading (Unit {0}))
      → ns ≤ 4294967295 * 1000000000 + 999999999
      → length p.bytes ≤ snap
      → length p.bytes ≤ p.original_len
      → p.original_len < 2 ^ 32
      → length p.bytes ≤ max_packet_bytes
      → r.rest ≡ pcap_bytes p ns ++ more
      → r.count + 16 + length p.bytes ≤ limits.bytes
      → limits.retain ≡ true
      → r.capture.total_packets + 1 ≤ limits.records
      → pcap_loop none limits (suc fuel) true 9 snap r
        ≡ pcap_loop none limits fuel true 9 snap (record r {
          rest = more;
          count = r.count + 16 + length p.bytes;
          capture = with_packet p ns r.count r.capture;
        })
  unfolding pcap_loop words ◌>>◌
  turn-got fuel snap ns p more r time fits whole original short e room kept records =
      let header = words (ns / 1000000000) (ns % 1000000000) (length p.bytes) p.original_len in
      let s = record r { rest = p.bytes ++ more; count = r.count + 16 } in
      got-bind (next limits 16) _ r (some header) s (
        header-got (ns / 1000000000) (ns % 1000000000) (length p.bytes) p.original_len
          (p.bytes ++ more) r e (omega (arith, room)))
      ∙ got-bind (pcap_record none limits true 9 snap r.count header) _ s tt _ (
          record-got snap r.count ns p more s time fits whole original short refl room kept records)

  pub end-got :
      (fuel snap : ℕ) (r : Reading (Unit {0}))
      → r.rest ≡ []
      → r.ending ≡ none
      → pcap_loop none limits (suc fuel) true 9 snap r ≡ got (tt, r)
  unfolding pcap_loop next next_at
  end-got fuel snap r e f =
      let answer : Option Text → Read (Option (List ℕ) × Reading (Unit {0})) =
        λ o. elim o [ none ↦ got (none, r) | some m ↦ failed m ] in
      got-bind (next limits 16) _ r none r (ap (λ xs. next_at limits 16 xs r) e ∙ ap answer f)
