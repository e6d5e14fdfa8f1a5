-- ===== src/Optiga/Physical/Negotiation/Outcome.antt =====
-- That a negotiation ends, and single rounds of it.
use decada_embedded_example.Base.{
  ℕ, zero, suc, ◌≤◌, ◌<◌, ◌≡◌, ap, ◌∙◌, List, ◌++◌, true, some, inl, inr, Bool-cases, arith,
  if◌then◌else◌,
}
use decada_embedded_example.Optiga.DataLink.Machine.{Status, success, failure}
use decada_embedded_example.Optiga.Physical.Machine.{
  Negotiate, set_freq_default, set_freq_reg, verify_freq, agree_freq, verify_data_reg, done,
  Physical, Env, Output,
}
use decada_embedded_example.Optiga.Physical.Negotiation.{
  Round, dispatch, rounds, negotiate, prepend, go_on, wait,
}

-- How many rounds the negotiation can still make without an answer of the device.
abbrev pub rank : Negotiate → ℕ
rank set_freq_reg = 4
rank verify_freq = 3
rank agree_freq = 2
rank set_freq_default = 2
rank verify_data_reg = 2
rank _ = 1

rank_bounds : (s : Negotiate) → (1 ≤ rank s) × (rank s ≤ 4)
rank_bounds s = ground arith

dispatch-falls :
    (s : Negotiate) (env : Env) (event : Status) (p : Physical)
    → (dispatch s env event p).more ≡ true
    → rank (dispatch s env event p).physical.negotiate_state < rank s
unfolding dispatch
dispatch-falls set_freq_default env event p h = ground arith
dispatch-falls agree_freq env event p h = ground arith
dispatch-falls set_freq_reg env event p h = ground arith
dispatch-falls verify_freq env event p h = ground arith
dispatch-falls verify_data_reg env event p h = ground arith
dispatch-falls done env success p h = ground arith
dispatch-falls done env _ p h = ground arith
dispatch-falls _ env event p h = ground arith

rounds_end :
    (fuel : ℕ) (env : Env) (event : Status) (p : Physical)
    → rank p.negotiate_state ≤ fuel
    → (e : Physical × List Output) × (rounds fuel env event p ≡ some e)
unfolding rounds
rounds_end zero env event p h = absurd (omega (arith, rank_bounds p.negotiate_state))
rounds_end (suc fuel) env event p h =
    let r = dispatch p.negotiate_state env event p in
    elim (Bool-cases r.more) [
      | inl more ↦
          let (e, ends) =
            rounds_end fuel env r.event r.physical
              (omega (arith, dispatch-falls p.negotiate_state env event p more)) in
          ((e.0, r.outputs ++ e.1), rw (more, ends))
      | inr stop ↦ ((r.physical, r.outputs), rw stop)
    ]

-- An activation of the negotiation ends in every state, within the four rounds of the model.
pub negotiate_ends :
    (env : Env) (p : Physical) → (e : Physical × List Output) × (negotiate env p ≡ some e)
unfolding negotiate
negotiate_ends env p = rounds_end 4 env failure p ((rank_bounds p.negotiate_state).1)

-- A round by what the `switch` gives in the state that the layer is in.
pub rounds-goes_on :
    (fuel : ℕ) (env : Env) (event : Status) (p : Physical)
    → (s next : Negotiate) (later : Status) (q : Physical) (out : List Output)
    → p.negotiate_state ≡ s
    → dispatch s env event p ≡ go_on next later q out
    → rounds (suc fuel) env event p
      ≡ prepend out (rounds fuel env later (record q { negotiate_state = next }))
unfolding rounds
rounds-goes_on fuel env event p s next later q out at given =
    let e = ap (λ s'. dispatch s' env event p) at ∙ given in
    ap
      (λ (r : Round).
        if r.more
        then prepend r.outputs (rounds fuel env r.event r.physical)
        else some (r.physical, r.outputs))
      e

pub rounds-waits :
    (fuel : ℕ) (env : Env) (event : Status) (p : Physical)
    → (s next : Negotiate) (later : Status) (sent : Physical × List Output) → p.negotiate_state ≡ s
    → dispatch s env event p ≡ wait next later sent
    → rounds (suc fuel) env event p ≡ some (record (sent.0) { negotiate_state = next }, sent.1)
unfolding rounds
rounds-waits fuel env event p s next later sent at given =
    let e = ap (λ s'. dispatch s' env event p) at ∙ given in
    ap
      (λ (r : Round).
        if r.more
        then prepend r.outputs (rounds fuel env r.event r.physical)
        else some (r.physical, r.outputs))
      e
