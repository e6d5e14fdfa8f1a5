-- ===== src/Optiga/DataLink/Handler/Handshake.antt =====
-- One data frame across the link, with both ends run by this layer.
use decada_embedded_example.Base.{
  ℕ, ◌+◌, ◌^◌, ◌≤◌, ◌<◌, ◌≡◌, ◌≢◌, refl, ap, sym, ◌∙◌, List, [], ◌∷◌, false, none, some, arith,
  length, ◌==◌, if◌then◌else◌,
}
use decada_embedded_example.Optiga.DataLink.Crc.Detection.{IsBytes}
use decada_embedded_example.Optiga.DataLink.Frame.{
  no_fields, next_nr, header_size, data_fctr, seqctr_ack,
}
use decada_embedded_example.Optiga.DataLink.Frame.Layout.{layout}
use decada_embedded_example.Optiga.DataLink.Frame.Buffer.{payload_in, length-payload_in}
use decada_embedded_example.Optiga.DataLink.Machine.{
  idle, rx, success, DataLink, Env, transmit, listen, notify, on_tx, on_rx, on_tx_rx, send_internal,
  send_frame,
}
use decada_embedded_example.Optiga.DataLink.Handler.{stop_with, on_sent, dispatch, round, handle}
use decada_embedded_example.Optiga.DataLink.Handler.Invariant.{Inv, next_nr-eq-mod}
use decada_embedded_example.Optiga.DataLink.Handler.Total.{rounds-stop}
use decada_embedded_example.Optiga.DataLink.Handler.Exchange.{
  control_frame, delivers, ack_completes, sending, send_frame_lem,
}

-- Two ends of the link agree on the numbers of the last frames either way.
pub record Agree (a b : DataLink) : Type 0 where
  pub forth : a.tx_seq_nr ≡ b.rx_seq_nr
  pub back : b.tx_seq_nr ≡ a.rx_seq_nr

-- One data frame from an idle end `a` to an end `b` that receives, over a physical layer that
-- delivers: the five activations, with what each puts out. `b` hands on the payload that stood in
-- `a`'s buffer, both are idle, and they agree again.
pub record Exchanged (env : Env) (a b : DataLink) (n : ℕ) : Type 0 where
  pub wire : List ℕ
  pub a_sent : DataLink
  pub a_listens : DataLink
  pub a_done : DataLink
  pub b_took : DataLink
  pub b_done : DataLink
  pub acked : List ℕ
  pub sends : send_frame env a n ≡ (env.send_status, a_sent, some wire)
  pub listens : handle env success [] a_sent ≡ some (a_listens, listen ∷ [])
  pub takes : handle env success wire b ≡ some (b_took, transmit acked ∷ [])
  pub completes : handle env success acked a_listens ≡ some (a_done, notify on_tx none ∷ [])
  pub hands_over :
      handle env success [] b_took
      ≡ some (
        b_done,
        notify (if b.action_rx_only then on_rx else on_tx_rx) (some (payload_in n a.tx_frame)) ∷ [],
      )
  pub a_idle : a_done.state ≡ idle
  pub b_idle : b_done.state ≡ idle
  pub agree : Agree a_done b_done

-- The layer after its data frame went out and it began to listen.
abbrev listening : Env → DataLink → ℕ → DataLink
listening env a n = record (send_internal (sending a n) n seqctr_ack false).0 {
  frame_start_time = env.now;
  state = rx;
}

starts_listening :
    (env : Env) (a : DataLink) (n : ℕ)
    → env.receive_status ≡ success
    → handle env success [] (send_internal (sending a n) n seqctr_ack false).0
      ≡ some (listening env a n, listen ∷ [])
unfolding handle round dispatch on_sent send_internal
starts_listening env a n heard =
    rounds-stop 3 env success [] no_fields (send_internal (sending a n) n seqctr_ack false).0
      (stop_with (listening env a n) no_fields (listen ∷ [])) (rw heard) refl

tx_seq_nr-listening :
    (env : Env) (a : DataLink) (n : ℕ) → n ≢ 0 → (listening env a n).tx_seq_nr ≡ next_nr a.tx_seq_nr
unfolding send_internal
tx_seq_nr-listening env a n filled =
    let some_bytes : (n == 0) ≡ false = ground arith in rw some_bytes

keeps-listening :
    (env : Env) (a : DataLink) (n : ℕ)
    → ((listening env a n).action_rx_only ≡ false) × ((listening env a n).rx_seq_nr ≡ a.rx_seq_nr)
unfolding send_internal
keeps-listening env a n = (refl, refl)

-- If an idle end sends a data frame to an end that waits for one, the two agree on the frame
-- numbers, their buffers have room, the payload is neither empty nor above 16 bits in length, and
-- the physical layer delivers each frame unchanged, then the payload is handed to the receiver's
-- transport layer unchanged, the sender's is told of the success, both ends are idle, and they
-- agree again.
pub exchange :
    (env : Env) (a b : DataLink) (n : ℕ)
    → a.state ≡ idle
    → b.state ≡ rx
    → Inv b
    → Agree a b
    → env.receive_status ≡ success
    → n ≢ 0
    → n < 2 ^ 16
    → header_size + n ≤ length a.tx_frame
    → header_size + n ≤ length b.rx_frame
    → header_size ≤ length b.tx_frame
    → IsBytes (payload_in n a.tx_frame)
    → Exchanged env a b n
exchange env a b n free waiting v same heard filled small room_a room_b room_ack bytes =
    let payload = payload_in n a.tx_frame in
    let size = length-payload_in n a.tx_frame room_a in
    let (took, done, takes, hands, b_idle, b_rx, b_tx) =
      delivers b payload waiting v bytes (rw size filled) (rw size small) (rw size room_b) room_ack
        env env in
    let (waits, kept) = keeps-listening env a n in
    let numbered = tx_seq_nr-listening env a n filled in
    let named : (listening env a n).tx_seq_nr ≡ next_nr b.rx_seq_nr =
      numbered ∙ ap next_nr same.forth in
    record {
      wire = layout (data_fctr seqctr_ack a.rx_seq_nr (next_nr a.tx_seq_nr)) payload;
      a_sent = (send_internal (sending a n) n seqctr_ack false).0;
      a_listens = listening env a n;
      a_done = record (listening env a n) { state = idle };
      b_took = took;
      b_done = done;
      acked = control_frame seqctr_ack (next_nr b.rx_seq_nr);
      sends = send_frame_lem env a n free filled room_a;
      listens = starts_listening env a n heard;
      takes = rw (← same.back, same.forth) takes;
      completes =
          ap (λ k. handle env success (control_frame seqctr_ack k) (listening env a n)) (sym named)
          ∙ ack_completes env (listening env a n) refl waits
              (rw numbered (omega (arith, next_nr-eq-mod a.tx_seq_nr)));
      hands_over = hands;
      a_idle = refl;
      b_idle = b_idle;
      agree = record { forth = named ∙ sym b_rx; back = b_tx ∙ same.back ∙ sym kept };
    }
