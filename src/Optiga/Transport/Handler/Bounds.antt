-- ===== src/Optiga/Transport/Handler/Bounds.antt =====
-- The layer reads its packet within its length.
use decada_embedded_example.Base.{
  ℕ, zero, suc, ◌+◌, ◌^◌, ◌≤◌, ◌<◌, ◌≡◌, refl, List, Option, none, some, inl, inr, subst, sym,
  length, Bool-cases, arith,
}
use decada_embedded_example.Base.Word.{u8}
use decada_embedded_example.Optiga.DataLink.Machine.{Event}
use decada_embedded_example.Optiga.Transport.Machine.{
  State, idle, tx, resend, Transport, Env, Output, send_next_fragment, resend_packets,
  send_chaining_error,
}
use decada_embedded_example.Optiga.Transport.Handler.{
  prepend, override, dispatch, round, rounds, handle,
}

-- What is sent is a part of the packet, whose length has 16 bits.
pub record InBounds (t : Transport) : Type 0 where
  pub within : t.packet_offset ≤ length t.packet
  pub short : length t.packet < 2 ^ 16

pub send_next_fragment-InBounds : (t : Transport) → InBounds t → InBounds (send_next_fragment t).0
unfolding send_next_fragment
send_next_fragment-InBounds t b = ground (arith, b.within, b.short)

resend-InBounds : (env : Env) (t : Transport) → InBounds t → InBounds (resend_packets env t).1
unfolding resend_packets
resend-InBounds env t b = ground (
  arith,
  send_next_fragment-InBounds (record t { packet_offset = 0; total_recv_length = 0; state = tx })
      (record { within = omega arith; short = b.short }),
)

dispatch-InBounds :
    (s : State) (env : Env) (event : Event) (frame : Option (List ℕ)) (t : Transport)
    → InBounds t
    → InBounds (dispatch s env event frame t).transport
unfolding dispatch send_chaining_error
dispatch-InBounds tx env event frame t b = ground (arith, send_next_fragment-InBounds t b)
dispatch-InBounds resend env event frame t b = ground (
  arith,
  resend-InBounds env
      (record t { state = idle; chaining_error_count = u8 (t.chaining_error_count + 1) })
      (record { within = b.within; short = b.short }),
)
dispatch-InBounds _ env event frame t b = ground arith

round-InBounds :
    (env : Env) (event : Event) (frame : Option (List ℕ)) (t : Transport)
    → InBounds t
    → InBounds (round env event frame t).transport
unfolding round
round-InBounds env event frame t b =
    let t' = override event frame t in
    dispatch-InBounds t'.state env event frame t' (ground (arith, b.within, b.short))

prepend-some :
    (out : List Output) (rest : Option (Transport × List Output)) (e : Transport × List Output)
    → prepend out rest ≡ some e
    → (later : Transport × List Output) × (rest ≡ some later) × (e.0 ≡ later.0)
prepend-some out none e h = cc
prepend-some out (some later) e h = (later, refl, ground arith)

first_of :
    (x e : Transport × List Output)
    → ◌≡◌ {A = Option (Transport × List Output)} (some x) (some e)
    → x.0 ≡ e.0
first_of x e h = ground arith

rounds-InBounds :
    (fuel : ℕ) (env : Env) (event : Event) (frame : Option (List ℕ)) (t : Transport)
    (e : Transport × List Output)
    → InBounds t
    → rounds fuel env event frame t ≡ some e
    → InBounds e.0
unfolding rounds
rounds-InBounds zero env event frame t e b h = cc
rounds-InBounds (suc fuel) env event frame t e b h =
    let r = round env event frame t in
    let kept = round-InBounds env event frame t b in
    elim (Bool-cases r.more) [
      | inl more ↦
          let (later, run, same) =
            prepend-some r.outputs (rounds fuel env event frame r.transport) e (rw more at h) in
          subst InBounds (sym same)
            (rounds-InBounds fuel env event frame r.transport later kept run)
      | inr stop ↦ subst InBounds (first_of (r.transport, r.outputs) e (rw stop at h)) kept
    ]

-- On every event the handler keeps the offset up to which the packet is sent within the packet, also
-- when it begins the packet again, for a packet whose length has 16 bits.
pub handle-InBounds :
    (env : Env) (event : Event) (frame : Option (List ℕ)) (t : Transport)
    (e : Transport × List Output)
    → InBounds t
    → handle env event frame t ≡ some e
    → InBounds e.0
unfolding handle
handle-InBounds env event frame t e b h = rounds-InBounds 5 env event frame t e b h
