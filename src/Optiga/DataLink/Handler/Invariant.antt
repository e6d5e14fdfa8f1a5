-- ===== src/Optiga/DataLink/Handler/Invariant.antt =====
-- What holds of the data link layer between two activations.
use decada_embedded_example.Base.{ℕ, ◌+◌, ◌%◌, ◌≤◌, ◌<◌, ◌≡◌, refl, List, Bool, false, some, arith}
use decada_embedded_example.Base.Word.Bits.{bit_and_mask}
use decada_embedded_example.Optiga.DataLink.Frame.{Fields, no_fields, next_nr}
use decada_embedded_example.Optiga.DataLink.Machine.{
  State, uninit, resend, rx_df, rx_cf, Status, DataLink, Env, Output, send_internal, resync,
  resend_or_resync, resend_frame, max_repeats, init, send_frame, receive_frame, success,
}
use decada_embedded_example.Optiga.DataLink.Handler.Total.{rounds_rule}
use decada_embedded_example.Optiga.DataLink.Handler.{override, dispatch, round, handle}

-- The sequence numbers have two bits, and a frame is repeated three times at most.
pub record Inv (d : DataLink) : Type 0 where
  pub tx_two_bits : d.tx_seq_nr < 4
  pub rx_two_bits : d.rx_seq_nr < 4
  pub few_repeats : d.retransmit_counter ≤ max_repeats

pub next_nr-eq-mod : (n : ℕ) → next_nr n ≡ (n + 1) % 4
unfolding next_nr
next_nr-eq-mod n = bit_and_mask 2 (n + 1)

pub send_internal-Inv :
    (d : DataLink) (frame_len seqctr : ℕ) (again : Bool)
    → Inv d
    → Inv (send_internal d frame_len seqctr again).0
unfolding send_internal
send_internal-Inv d frame_len seqctr again v = ground (arith, next_nr-eq-mod d.tx_seq_nr)

resend_frame-Inv :
    (env : Env) (d : DataLink) (seqctr : ℕ) → Inv d → Inv (resend_frame env d seqctr).0
unfolding resend_frame resend_or_resync resync send_internal
resend_frame-Inv env d seqctr v = ground (arith, next_nr-eq-mod d.tx_seq_nr)

dispatch-Inv :
    (s : State) (env : Env) (event : Status) (p_data : List ℕ) (f : Fields) (d : DataLink)
    → Inv d
    → Inv (dispatch s env event p_data f d).link
unfolding dispatch send_internal resync
dispatch-Inv resend env event p_data f d v = resend_frame-Inv env d 0 v
dispatch-Inv rx_df env event p_data f d v =
    ground (arith, next_nr-eq-mod d.tx_seq_nr, next_nr-eq-mod d.rx_seq_nr)
dispatch-Inv _ env event p_data f d v = ground (arith, next_nr-eq-mod d.tx_seq_nr)

round-Inv :
    (env : Env) (event : Status) (p_data : List ℕ) (f : Fields) (d : DataLink)
    → Inv d
    → Inv (round env event p_data f d).link
unfolding round
round-Inv env event p_data f d v =
    let d' = override event d in dispatch-Inv d'.state env event p_data f d' (ground arith)

-- The states in which the handler leaves the layer to wait: all but the two that only lead from one
-- round to the next, and the initial one.
abbrev pub IsResting : State → Type 0
IsResting rx_df = ⊥
IsResting rx_cf = ⊥
IsResting uninit = ⊥
IsResting _ = Unit {0}

resend_frame-IsResting :
    (env : Env) (d : DataLink) (seqctr : ℕ) → IsResting (resend_frame env d seqctr).0.state
unfolding resend_frame resend_or_resync resync send_internal
resend_frame-IsResting env d seqctr = ground arith

dispatch-IsResting :
    (s : State) (env : Env) (event : Status) (p_data : List ℕ) (f : Fields) (d : DataLink)
    → d.state ≡ s
    → (dispatch s env event p_data f d).more ≡ false
    → IsResting (dispatch s env event p_data f d).link.state
unfolding dispatch send_internal resync
dispatch-IsResting resend env event p_data f d same stop = resend_frame-IsResting env d 0
dispatch-IsResting _ env event p_data f d same stop = ground arith

-- The handler keeps the sequence numbers within two bits and the repetitions within their limit,
-- on every event, and leaves the layer in a state of waiting.
pub handle-Inv :
    (env : Env) (event : Status) (p_data : List ℕ) (d : DataLink) (e : DataLink × List Output)
    → Inv d
    → handle env event p_data d ≡ some e
    → Inv e.0 × IsResting e.0.state
unfolding handle
handle-Inv env event p_data d e v h =
    rounds_rule (λ _. Inv) (λ d'. Inv d' × IsResting d'.state) env event p_data
      (λ f d' v' more. round-Inv env event p_data f d' v')
      (λ f d' v' stop. (
        round-Inv env event p_data f d' v',
        unfold round in
            dispatch-IsResting (override event d').state env event p_data f (override event d') refl
              stop,
      ))
      4 no_fields d e v h

-- So do the layer's other entry points; `ifx_i2c_dl_init` establishes the two bounds on the
-- sequence numbers, whatever the context held before.
pub init-Inv : (d : DataLink) → d.retransmit_counter ≤ max_repeats → Inv (init success d).1
unfolding init
init-Inv d h = ground arith

pub send_frame-Inv : (env : Env) (d : DataLink) (n : ℕ) → Inv d → Inv (send_frame env d n).1
unfolding send_frame send_internal
send_frame-Inv env d n v = ground (arith, next_nr-eq-mod d.tx_seq_nr)

pub receive_frame-Inv : (env : Env) (d : DataLink) → Inv d → Inv (receive_frame env d).1
unfolding receive_frame
receive_frame-Inv env d v = ground arith
