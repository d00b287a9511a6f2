-- ===== src/Capture/Export/Selected.antt =====
-- `Selection::new` of crates/netlane-capture/src/export.rs: what a selection is.
use netlane.Prelude.{
  ℕ, suc, ◌+◌, ◌≤◌, ◌<◌, ◌^◌, Bool, not, ◌&&◌, ◌||◌, List, [], ◌∷◌, ◌++◌, length, length-append,
  get_elem?, any, is_empty, All, All-get_elem?, All-append, ltb, leb, ◌==◌, Result, ok, ok_or,
  ok_or-eq-ok, ensure, >>=-eq-ok, ensure-eq-ok, Bool-cases, inl, inr, ◌≡◌, refl, subst, arith,
}
use netlane.Prelude.Sorting.{insert_by, sort_by, sort_by-All}
use netlane.Capture.Types.{Packet, CaptureFile, max_packet_bytes, max_interfaces}
use netlane.Capture.Reader.Kept.{total_bytes}
use netlane.Capture.Export.{Selection, Chosen, choose, choose_all, new, is_hash}
use netlane.Capture.Export.Whole.{IsSelection}

abbrev by_number : Packet → Packet → Bool
by_number p q = leb p.number q.number

insert_by-sizes :
    (le : Packet → Packet → Bool) (p : Packet) (ps : List Packet)
    → (length (insert_by le p ps) ≡ 1 + length ps)
      × (total_bytes (insert_by le p ps) ≡ length p.bytes + total_bytes ps)
unfolding insert_by
insert_by-sizes le p [] = (refl, refl)
insert_by-sizes le p (q ∷ ps) = elim (Bool-cases (le p q)) [
  | inl e ↦ rw (e, insert_by) (omega arith, omega arith)
  | inr e ↦
      let h = insert_by-sizes le p ps in rw (e, insert_by) (omega (arith, h.0), omega (arith, h.1))
]

sort_by-sizes :
    (le : Packet → Packet → Bool) (ps : List Packet)
    → (length (sort_by le ps) ≡ length ps) × (total_bytes (sort_by le ps) ≡ total_bytes ps)
unfolding sort_by
sort_by-sizes le [] = (refl, refl)
sort_by-sizes le (p ∷ ps) =
    let h = sort_by-sizes le ps in
    let k = insert_by-sizes le p (sort_by le ps) in
    (omega (arith, h.0, k.0), omega (arith, h.1, k.1))

total_bytes-last :
    (ps : List Packet) (p : Packet) → total_bytes (ps ++ p ∷ []) ≡ total_bytes ps + length p.bytes
total_bytes-last [] p = omega arith
total_bytes-last (q ∷ ps) p = omega (arith, total_bytes-last ps p)

ok-injective : {A : Type 0} (a b : A) → Path (Result A) (ok a) (ok b) → a ≡ b
ok-injective a b e = cc

-- The packets taken so far.
abbrev True : Packet → Type 0
True p = (length p.bytes ≤ p.original_len) × (p.original_len < 2 ^ 32)

record IsChosen (n : ℕ) (c : Chosen) : Type 0 where
  taken_true : All True c.taken
  size_true : c.size ≡ total_bytes c.taken
  small : c.size ≤ max_packet_bytes
  count : length c.taken ≤ n

-- The lengths of the capture's packets are of type `u32`.
abbrev pub InU32 : CaptureFile → Type 0
InU32 capture = All (λ p. p.original_len < 2 ^ 32) capture.packets

choose-IsChosen :
    (capture : CaptureFile) (index n : ℕ) (c d : Chosen)
    → InU32 capture
    → IsChosen n c
    → choose capture index c ≡ ok d
    → IsChosen (suc n) d
unfolding choose
choose-IsChosen capture index n c d u h e =
    let (p, f, e1) = >>=-eq-ok (ok_or (get_elem? capture.packets index) _) _ e in
    let (i, _, e2) = >>=-eq-ok (ok_or (get_elem? capture.interfaces p.interface) _) _ e1 in
    let (_, _, e3) =
      >>=-eq-ok
        (ensure
          (not (any (λ n. n == p.number) c.seen)
            && ltb 0 p.number
            && leb p.number capture.total_packets)
          _)
        _ e2 in
    let (_, g, e4) =
      >>=-eq-ok
        (ensure
          (leb (length p.bytes) p.captured_len
            && leb p.captured_len p.original_len
            && (i.snaplen == 0 || leb p.captured_len i.snaplen))
          _)
        _ e3 in
    let (_, k, e5) = >>=-eq-ok (ensure (leb (c.size + length p.bytes) 1048576) _) _ e4 in
    let lengths =
      ensure-eq-ok
        (leb (length p.bytes) p.captured_len
          && leb p.captured_len p.original_len
          && (i.snaplen == 0 || leb p.captured_len i.snaplen))
        _ g in
    let room = ensure-eq-ok (leb (c.size + length p.bytes) 1048576) _ k in
    let in_range =
      All-get_elem? (λ p. p.original_len < 2 ^ 32) capture.packets index p u
        (ok_or-eq-ok (get_elem? capture.packets index) _ p f) in
    subst (IsChosen (suc n))
      (ok-injective
        (record {
          seen = p.number ∷ c.seen;
          taken = c.taken ++ p ∷ [];
          size = c.size + length p.bytes;
        })
        d e5)
      (record {
        taken_true =
            All-append True c.taken (p ∷ []) h.taken_true ((ground (arith, lengths), in_range), tt);
        size_true = omega (arith, h.size_true, total_bytes-last c.taken p);
        small = ground (arith, room);
        count = omega (arith, h.count, length-append c.taken (p ∷ []));
      })

choose_all-IsChosen :
    (capture : CaptureFile) (indexes : List ℕ) (n : ℕ) (c d : Chosen)
    → InU32 capture
    → IsChosen n c
    → choose_all capture indexes c ≡ ok d
    → IsChosen (n + length indexes) d
unfolding choose_all
choose_all-IsChosen capture [] n c d u h e =
    subst (λ m. IsChosen m d) (omega arith) (subst (IsChosen n) (ok-injective c d e) h)
choose_all-IsChosen capture (index ∷ indexes) n c d u h e =
    let (b, f, g) = >>=-eq-ok (choose capture index c) (choose_all capture indexes) e in
    subst (λ m. IsChosen m d) (omega arith)
      (choose_all-IsChosen capture indexes (suc n) b d u (choose-IsChosen capture index n c b u h f)
        g)

-- A selection that `Selection::new` makes of a capture, whose numbers are in the ranges of their types, has at most 512
-- packets and 1 MiB of bytes, and none has more bytes than its original length.
pub new-IsSelection :
    (capture : CaptureFile) (indexes : List ℕ) (s : Selection)
    → InU32 capture
    → All (λ i. i.link_type < 2 ^ 16) capture.interfaces
    → new capture indexes ≡ ok s
    → IsSelection s
unfolding new
new-IsSelection capture indexes s u links e =
    let few = not (is_empty indexes) && leb (length indexes) 512 in
    let (_, f, e1) = >>=-eq-ok (ensure few _) _ e in
    let (_, _, e2) = >>=-eq-ok (ensure (leb (length capture.interfaces) max_interfaces) _) _ e1 in
    let (_, _, e3) = >>=-eq-ok (ensure (is_hash capture.sha256) _) _ e2 in
    let (c, g, e4) =
      >>=-eq-ok (choose_all capture indexes (record { seen = []; taken = []; size = 0 })) _ e3 in
    let few_indexes = ensure-eq-ok few _ f in
    let k =
      choose_all-IsChosen capture indexes 0 (record { seen = []; taken = []; size = 0 }) c u
        (record { taken_true = tt; size_true = refl; small = omega arith; count = omega arith })
        g in
    let sizes = sort_by-sizes by_number c.taken in
    subst IsSelection
      (ok-injective
        (record {
          source_sha256 = capture.sha256;
          source_packets = capture.total_packets;
          interfaces = capture.interfaces;
          packets = sort_by by_number c.taken;
        })
        s e4)
      (record {
        true_lengths = sort_by-All by_number True c.taken k.taken_true;
        short = omega (arith, sizes.1, k.size_true, k.small);
        few = ground (arith, sizes.0, k.count, few_indexes);
        links = links;
      })
