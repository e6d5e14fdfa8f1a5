-- ===== src/Optiga/Transport/Fragment.antt =====
-- What `ifx_i2c_tl_send_next_fragment` hands down, where the packet is split into the part that is
-- sent and the part that is not.
use mathlib.Core.List.{append_assoc}
use decada_embedded_example.Base.{
  ℕ, suc, ◌+◌, ◌^◌, ◌≤◌, ◌<◌, ◌≡◌, ◌≢◌, refl, ap, sym, ◌∙◌, List, [], ◌∷◌, ◌++◌, length, take, drop,
  set, copy_to, copy_to_behind, take-append, drop-append, take_all, take-append-drop, length-take,
  length-append, length-set, length-copy_to, ◌==◌, if◌then◌else◌, arith,
}
use decada_embedded_example.Base.Word.{u16}
use decada_embedded_example.Optiga.Transport.Machine.{
  Transport, calculate_pctr, fragment_size_of, send_next_fragment, chaining_no, chaining_first,
  chaining_intermediate, chaining_last,
}

-- The chaining byte and the fragment stand from the fourth byte of the frame buffer on.
frame_bytes :
    (c : ℕ) (fragment tx : List ℕ)
    → 4 + length fragment ≤ length tx
    → take (suc (length fragment)) (drop 3 (copy_to (set tx 3 c) 4 fragment)) ≡ c ∷ fragment
frame_bytes c fragment [] h = absurd (omega arith)
frame_bytes c fragment (x ∷ []) h = absurd (omega arith)
frame_bytes c fragment (x ∷ y ∷ []) h = absurd (omega arith)
frame_bytes c fragment (x ∷ y ∷ z ∷ []) h = absurd (omega arith)
frame_bytes c fragment (x ∷ y ∷ z ∷ w ∷ tx) h =
    ap (λ r. take (suc (length fragment)) (drop 3 r))
      (copy_to_behind (x ∷ y ∷ z ∷ c ∷ []) tx fragment (omega arith))
    ∙ ap (λ r. c ∷ r) (take-append fragment (drop (length fragment) tx))

-- The layer between two fragments: `sent` and `left` make up its packet.
pub record Sending (t : Transport) (sent left : List ℕ) : Type 0 where
  pub whole : t.packet ≡ sent ++ left
  pub offset : t.packet_offset ≡ length sent
  pub short : length t.packet < 2 ^ 16
  pub some_length : t.max_packet_length ≢ 0
  pub room : 4 + t.max_packet_length ≤ length t.tx_frame
  pub frame_short : length t.tx_frame < 2 ^ 16

lengths :
    (t : Transport) (sent left : List ℕ)
    → Sending t sent left
    → length t.packet ≡ length sent + length left
lengths t sent left s = ap length s.whole ∙ length-append sent left

dropped :
    (t : Transport) (sent left : List ℕ)
    → Sending t sent left
    → drop t.packet_offset t.packet ≡ left
dropped t sent left s = rw (s.whole, s.offset) (drop-append sent left)

-- The bytes handed down, from the size of the fragment.
handed :
    (t : Transport) (sent left : List ℕ)
    → Sending t sent left
    → (size : ℕ) (fragment : List ℕ) → fragment_size_of t ≡ size
    → take size left ≡ fragment
    → length fragment ≡ size
    → size ≤ t.max_packet_length
    → (send_next_fragment t).1 ≡ calculate_pctr t ∷ fragment
unfolding send_next_fragment
handed t sent left s size fragment e f l h =
    let fits : u16 (size + 1) ≡ suc (length fragment) = omega (arith, s.room, s.frame_short) in
    rw (e, dropped t sent left s, f, fits)
      (frame_bytes (calculate_pctr t) fragment t.tx_frame (omega (arith, s.room)))

-- The last fragment, and one before it.
pub send_last :
    (t : Transport) (sent left : List ℕ)
    → Sending t sent left
    → length left ≤ t.max_packet_length
    → ((send_next_fragment t).1 ≡ (if length sent == 0 then chaining_no else chaining_last) ∷ left)
      × ((send_next_fragment t).0.packet_offset ≡ length (send_next_fragment t).0.packet)
send_last t sent left s h =
    let len = lengths t sent left s in
    let size : fragment_size_of t ≡ length left = ground (arith, s.short, s.offset) in
    let pctr : calculate_pctr t ≡ (if length sent == 0 then chaining_no else chaining_last) =
      unfold calculate_pctr in ground (arith, s.short, s.offset) in
    (
      handed t sent left s (length left) left size (take_all (length left) left (omega arith)) refl
            h
          ∙ ap (λ r. r ∷ left) pctr,
      unfold send_next_fragment in rw size (omega (arith, s.short, s.offset)),
    )

pub send_more :
    (t : Transport) (sent left : List ℕ)
    → Sending t sent left
    → t.max_packet_length < length left
    → ((send_next_fragment t).1
        ≡ (if length sent == 0 then chaining_first else chaining_intermediate)
          ∷ take t.max_packet_length left)
      × Sending
          (send_next_fragment t).0
          (sent ++ take t.max_packet_length left)
          (drop t.max_packet_length left)
send_more t sent left s h =
    let m = t.max_packet_length in
    let len = lengths t sent left s in
    let full : length (take m left) ≡ m = omega (arith, length-take m left) in
    let size : fragment_size_of t ≡ m = ground (arith, s.offset) in
    let pctr : calculate_pctr t
        ≡ (if length sent == 0 then chaining_first else chaining_intermediate) =
      unfold calculate_pctr in ground (arith, s.short, s.offset) in
    (
      handed t sent left s m (take m left) size refl full (omega arith)
          ∙ ap (λ r. r ∷ take m left) pctr,
      unfold send_next_fragment in
          record {
            whole =
                s.whole
                ∙ ap (λ r. sent ++ r) (sym (take-append-drop m left))
                ∙ sym (append_assoc sent (take m left) (drop m left));
            offset = rw (size, length-append, full) (omega (arith, s.short, s.offset));
            short = s.short;
            some_length = s.some_length;
            room = rw (length-copy_to, length-set) s.room;
            frame_short = rw (length-copy_to, length-set) s.frame_short;
          },
    )
