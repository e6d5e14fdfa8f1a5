-- ===== src/Optiga/Transport/Handler/Total.antt =====
-- The loop of the event handler ends.
use decada_embedded_example.Base.{
  ℕ, zero, suc, ◌≤◌, ◌<◌, ◌≡◌, refl, List, ◌++◌, true, false, if◌then◌else◌, Option, some, inl, inr,
  Bool-cases, arith,
}
use decada_embedded_example.Optiga.DataLink.Machine.{Event}
use decada_embedded_example.Optiga.Transport.Machine.{
  State, tx, rx, chaining, error, chaining_error, resend, Transport, Env, Output,
}
use decada_embedded_example.Optiga.Transport.Handler.{
  Round, is_mem_error, override, dispatch, round, rounds, handle, prepend,
}

-- How many rounds the handler can still make from a state. After a receive buffer was too small
-- the receive state leads on to the error state only.
abbrev rank_of : State → Transport → ℕ
rank_of tx t = 5
rank_of rx t = if is_mem_error t.error_event then 2 else 4
rank_of chaining t = 3
rank_of resend t = 3
rank_of chaining_error t = 2
rank_of _ t = 1

abbrev pub rank : Transport → ℕ
rank t = rank_of t.state t

rank_bounds : (t : Transport) → (1 ≤ rank t) × (rank t ≤ 5)
rank_bounds t = ground arith

dispatch-falls :
    (s : State) (env : Env) (event : Event) (frame : Option (List ℕ)) (t : Transport)
    → t.state ≡ s
    → (dispatch s env event frame t).more ≡ true
    → rank (dispatch s env event frame t).transport < rank_of s t
unfolding dispatch
dispatch-falls tx env event frame t e h = ground arith
dispatch-falls rx env event frame t e h = ground arith
dispatch-falls chaining env event frame t e h = ground arith
dispatch-falls resend env event frame t e h = ground arith
dispatch-falls chaining_error env event frame t e h = ground arith
dispatch-falls error env event frame t e h = ground arith
dispatch-falls _ env event frame t e h = ground arith

override-rank :
    (event : Event) (frame : Option (List ℕ)) (t : Transport)
    → rank (override event frame t) ≤ rank t
override-rank event frame t = ground (arith, rank_bounds t)

round-falls :
    (env : Env) (event : Event) (frame : Option (List ℕ)) (t : Transport)
    → (round env event frame t).more ≡ true
    → rank (round env event frame t).transport < rank t
unfolding round
round-falls env event frame t h =
    let t' = override event frame t in
    omega (arith, override-rank event frame t, dispatch-falls t'.state env event frame t' refl h)

rounds_total :
    (fuel : ℕ) (env : Env) (event : Event) (frame : Option (List ℕ)) (t : Transport)
    → rank t ≤ fuel
    → (e : Transport × List Output) × (rounds fuel env event frame t ≡ some e)
unfolding rounds
rounds_total zero env event frame t h = absurd (omega (arith, rank_bounds t))
rounds_total (suc fuel) env event frame t h =
    let r = round env event frame t in
    elim (Bool-cases r.more) [
      | inl more ↦
          let (e, ends) =
            rounds_total fuel env event frame r.transport
              (omega (arith, round-falls env event frame t more)) in
          ((e.0, r.outputs ++ e.1), rw (more, ends))
      | inr stop ↦ ((r.transport, r.outputs), rw stop)
    ]

-- The event handler of the transport layer ends on every event in every state: the five rounds of
-- the model's loop are enough.
pub handle_ends :
    (env : Env) (event : Event) (frame : Option (List ℕ)) (t : Transport)
    → (e : Transport × List Output) × (handle env event frame t ≡ some e)
unfolding handle
handle_ends env event frame t = rounds_total 5 env event frame t ((rank_bounds t).1)

-- One round of the loop, where it goes on and where it stops.
pub rounds-goes_on :
    (fuel : ℕ) (env : Env) (event : Event) (frame : Option (List ℕ)) (t : Transport) (r : Round)
    → round env event frame t ≡ r
    → r.more ≡ true
    → rounds (suc fuel) env event frame t
      ≡ prepend r.outputs (rounds fuel env event frame r.transport)
unfolding rounds
rounds-goes_on fuel env event frame t r e more = rw (e, more)

pub rounds-ends :
    (fuel : ℕ) (env : Env) (event : Event) (frame : Option (List ℕ)) (t : Transport) (r : Round)
    → round env event frame t ≡ r
    → r.more ≡ false
    → rounds (suc fuel) env event frame t ≡ some (r.transport, r.outputs)
unfolding rounds
rounds-ends fuel env event frame t r e stop = rw (e, stop)
