-- ===== src/Optiga/FrameSize.antt =====
-- The frame size, between the transport layer, which divides a packet by the size that is requested,
-- and the physical layer, which negotiates it.
use decada_embedded_example.Base.{
  ℕ, ◌+◌, ◌-◌, ◌^◌, ◌≤◌, ◌<◌, ◌≡◌, refl, ap, List, [], true, false, not, ◌&&◌, some, length,
  length-append, length-take, arith,
}
use decada_embedded_example.Base.Word.{sub16}
use decada_embedded_example.Optiga.DataLink.Machine.{success}
use decada_embedded_example.Optiga.DataLink.Frame.Layout.{covered, layout}
use decada_embedded_example.Optiga.Transport.Machine.{Transport, init, send_next_fragment}
use decada_embedded_example.Optiga.Transport.Fragment.{Sending, send_more}
use decada_embedded_example.Optiga.Physical.Machine.{Physical, Env, Output, ready, not_requested}
use decada_embedded_example.Optiga.Physical.Negotiation.Activations.{Fits}
use decada_embedded_example.Optiga.Physical.Frames.{init_physical}
use decada_embedded_example.Optiga.Physical.Frames.Run.{next, run}
use decada_embedded_example.Optiga.Physical.Frames.Opening.{negotiation, init_physical_negotiates}

length-layout : (fctr : ℕ) (payload : List ℕ) → length (layout fctr payload) ≡ length payload + 5
length-layout fctr payload = omega (arith, length-append (covered fctr payload))

-- The transport layer with a packet, as its initialisation leaves it for a frame size.
abbrev pub with_packet : ℕ → List ℕ → Transport → Transport
with_packet frame_size packet t = record ((init success frame_size t).1) {
  packet = packet;
  packet_offset = 0;
}

first_fragment :
    (frame_size : ℕ) (packet : List ℕ) (t : Transport)
    → 6 < frame_size
    → frame_size < length packet + 6
    → length packet < 2 ^ 16
    → frame_size ≤ length t.tx_frame
    → length t.tx_frame < 2 ^ 16
    → length ((send_next_fragment (with_packet frame_size packet t)).1) + 5 ≡ frame_size
unfolding init
first_fragment frame_size packet t low long short room small =
    let m = sub16 frame_size 6 in
    let is : m ≡ frame_size - 6 = omega arith in
    let sending : Sending (with_packet frame_size packet t) [] packet = record {
      whole = refl;
      offset = refl;
      short = short;
      some_length = λ z. absurd (omega (arith, is));
      room = omega (arith, is);
      frame_short = small;
    } in
    let sent = send_more (with_packet frame_size packet t) [] packet sending (omega (arith, is)) in
    omega (arith, ap length (sent.0), length-take m packet, is)

-- Both layers are initialised for the requested frame size, as `init_physical_negotiates` has it, and
-- the device offers a smaller one. The negotiation ends with the device's frame size, and the
-- transport layer still divides a longer packet by the requested one: with the first fragment the
-- data link layer's frame is longer than the size that was agreed on.
pub negotiated_size_outgrown :
    (env : Env) (f s fctr : ℕ) (p : Physical) (packet : List ℕ) (t : Transport)
    → p.request_soft_reset ≡ not_requested
    → (p.do_pal_init && not env.pal_ready) ≡ false
    → env.bitrate_set ≡ true
    → f < 2 ^ 16
    → s < p.frame_size
    → 6 < p.frame_size
    → p.frame_size < 2 ^ 16
    → Fits p.frequency f
    → 4 ≤ length p.buffer
    → length p.buffer < 2 ^ 16
    → p.frame_size < length packet + 6
    → length packet < 2 ^ 16
    → p.frame_size ≤ length t.tx_frame
    → length t.tx_frame < 2 ^ 16
    → (after : Physical) × (out : List Output) × (next
          ((init_physical env p).1)
          (run (negotiation env f s))
        ≡ some (after, out))
      × (after.frame_state ≡ ready)
      × (after.frame_size ≡ s)
      × (after.frame_size
          < length (layout fctr (send_next_fragment (with_packet p.frame_size packet t)).1))
negotiated_size_outgrown env f s fctr p packet t plain starts accepted small_f less low small_s fits
      room small long short room_t small_t =
    let (ok, after, e, at, size) =
      init_physical_negotiates env f s p plain starts accepted small_f (omega arith) small_s fits
        room small in
    let fragment = (send_next_fragment (with_packet p.frame_size packet t)).1 in
    let whole = first_fragment p.frame_size packet t low long short room_t small_t in
    (after, _, e, at, size, omega (arith, length-layout fctr fragment, whole, size))
