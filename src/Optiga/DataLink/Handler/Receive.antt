-- ===== src/Optiga/DataLink/Handler/Receive.antt =====
-- What the handler makes of a frame that arrives in the receive state.
use decada_embedded_example.Base.{
  ℕ, ◌^◌, ◌≤◌, ◌<◌, ◌≡◌, refl, ap, ◌∙◌, List, [], false, some, arith, length, ◌==◌, if◌then◌else◌,
}
use decada_embedded_example.Optiga.DataLink.Crc.{calc_crc}
use decada_embedded_example.Optiga.DataLink.Crc.Detection.{IsBytes, crc_from-lt}
use decada_embedded_example.Optiga.DataLink.Frame.{
  no_fields, header_size, analyse, data_fctr, control_fctr,
}
use decada_embedded_example.Optiga.DataLink.Frame.Layout.{
  covered, layout, data_fctr_parts, control_fctr_parts, analyse-layout,
}
use decada_embedded_example.Optiga.DataLink.Machine.{rx, rx_df, rx_cf, success, DataLink, Env}
use decada_embedded_example.Optiga.DataLink.Handler.{
  Round, on_received, on_data_frame, on_control_frame, dispatch, round, handle, continue_in,
  prepend,
}
use decada_embedded_example.Optiga.DataLink.Handler.Total.{rounds-more, rounds-stop}

-- `calc_crc` of bytes is a 16-bit value.
pub calc_crc-lt : (bs : List ℕ) → IsBytes bs → calc_crc bs < 2 ^ 16
unfolding calc_crc
calc_crc-lt bs h = crc_from-lt 0 bs (omega arith) h

covered-IsBytes :
    (fctr : ℕ) (payload : List ℕ) → fctr < 256 → IsBytes payload → IsBytes (covered fctr payload)
covered-IsBytes fctr payload h hp = (h, (omega arith, (omega arith, hp)))

-- A data frame read back.
pub analyse-data :
    (seqctr ack_nr fr_nr : ℕ) (payload : List ℕ)
    → seqctr < 4
    → ack_nr < 4
    → fr_nr < 4
    → IsBytes payload
    → length payload < 2 ^ 16
    → let fctr = data_fctr seqctr ack_nr fr_nr in
      analyse (layout fctr payload) ≡ record {
        ftype = 0;
        seqctr = seqctr;
        ack_nr = ack_nr;
        fr_nr = fr_nr;
        packet_len = length payload;
        crc_received = calc_crc (covered fctr payload);
        crc_calculated = calc_crc (covered fctr payload);
      }
analyse-data s a n payload hs ha hn hp hl =
    let fctr = data_fctr s a n in
    let (e0, e1, e2, e3, small) = data_fctr_parts s a n hs ha hn in
    analyse-layout fctr payload hl
      (calc_crc-lt (covered fctr payload) (covered-IsBytes fctr payload small hp))
    ∙ rw (e0, e1, e2, e3)

pub analyse-control :
    (seqctr ack_nr : ℕ)
    → seqctr < 4
    → ack_nr < 4
    → let fctr = control_fctr seqctr ack_nr in
      analyse (layout fctr []) ≡ record {
        ftype = 1;
        seqctr = seqctr;
        ack_nr = ack_nr;
        fr_nr = 0;
        packet_len = 0;
        crc_received = calc_crc (covered fctr []);
        crc_calculated = calc_crc (covered fctr []);
      }
analyse-control s a hs ha =
    let fctr = control_fctr s a in
    let (e0, e1, e2, e3, small) = control_fctr_parts s a hs ha in
    analyse-layout fctr [] (omega arith)
      (calc_crc-lt (covered fctr []) (covered-IsBytes fctr [] small tt))
    ∙ rw (e0, e1, e2, e3)

round-received :
    (env : Env) (p_data : List ℕ) (d : DataLink)
    → d.state ≡ rx
    → header_size ≤ length p_data
    → round env success p_data no_fields d
      ≡ continue_in d (analyse p_data) (if (analyse p_data).ftype == 1 then rx_cf else rx_df)
unfolding round dispatch on_received
round-received env p_data d st size = ground arith

-- From the receive state a frame goes through its analysis to the round for its kind.
pub handle-data_frame :
    (env : Env) (p_data : List ℕ) (d : DataLink) (r : Round)
    → d.state ≡ rx
    → header_size ≤ length p_data
    → (analyse p_data).ftype ≡ 0
    → on_data_frame (record d { state = rx_df }) (analyse p_data) p_data ≡ r
    → r.more ≡ false
    → handle env success p_data d ≡ some (r.link, r.outputs)
unfolding handle round dispatch
handle-data_frame env p_data d r st size kind e stop =
    rounds-more 3 env success p_data no_fields d (continue_in d (analyse p_data) rx_df)
      (round-received env p_data d st size ∙ rw kind) refl
    ∙ ap (prepend [])
        (rounds-stop 2 env success p_data (analyse p_data) (record d { state = rx_df }) r e stop)

pub handle-control_frame :
    (env : Env) (p_data : List ℕ) (d : DataLink) (r : Round)
    → d.state ≡ rx
    → header_size ≤ length p_data
    → (analyse p_data).ftype ≡ 1
    → on_control_frame (record d { state = rx_cf }) (analyse p_data) p_data ≡ r
    → r.more ≡ false
    → handle env success p_data d ≡ some (r.link, r.outputs)
unfolding handle round dispatch
handle-control_frame env p_data d r st size kind e stop =
    rounds-more 3 env success p_data no_fields d (continue_in d (analyse p_data) rx_cf)
      (round-received env p_data d st size ∙ rw kind) refl
    ∙ ap (prepend [])
        (rounds-stop 2 env success p_data (analyse p_data) (record d { state = rx_cf }) r e stop)
