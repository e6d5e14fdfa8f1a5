-- ===== src/Optiga/DataLink/Handler/Total.antt =====
-- The loop of the event handler ends.
use decada_embedded_example.Base.{
  ℕ, zero, suc, ◌≤◌, ◌<◌, ◌≡◌, List, ◌++◌, Bool, true, false, if◌then◌else◌, Option, none, refl,
  subst, sym, ◌⊎◌, inl, inr, some, Bool-cases, arith,
}
use decada_embedded_example.Optiga.DataLink.Frame.{Fields, no_fields}
use decada_embedded_example.Optiga.DataLink.Machine.{
  State, tx, rx, ack, resend, error, rx_df, rx_cf, Status, DataLink, Env, Output,
}
use decada_embedded_example.Optiga.DataLink.Handler.{
  Round, override, on_resend, dispatch, round, rounds, handle, is_error, prepend,
}

-- How many rounds the handler can still make from a state.
abbrev pub rank : State → ℕ
rank rx = 4
rank tx = 3
rank ack = 3
rank rx_df = 3
rank rx_cf = 3
rank resend = 2
rank _ = 1

rank_bounds : (s : State) → (1 ≤ rank s) × (rank s ≤ 4)
rank_bounds s = ground arith

-- A round either ends the activation or goes to a state of lower rank.
abbrev Falls : State → Round → Type 0
Falls s r = r.more ≡ true → rank r.link.state < rank s

is_error-rank : (s : State) → is_error s ≡ true → rank s < 2
is_error-rank s h = ground arith

on_resend-Falls : (env : Env) (d : DataLink) (f : Fields) → Falls resend (on_resend env d f)
unfolding on_resend
on_resend-Falls env d f h = is_error-rank _ h

dispatch-Falls :
    (s : State) (env : Env) (event : Status) (p_data : List ℕ) (f : Fields) (d : DataLink)
    → Falls s (dispatch s env event p_data f d)
unfolding dispatch
dispatch-Falls rx env event p_data f d h = ground arith
dispatch-Falls tx env event p_data f d h = ground arith
dispatch-Falls rx_df env event p_data f d h = ground arith
dispatch-Falls rx_cf env event p_data f d h = ground arith
dispatch-Falls ack env event p_data f d h = ground arith
dispatch-Falls resend env event p_data f d h = on_resend-Falls env d f h
dispatch-Falls error env event p_data f d h = ground arith
dispatch-Falls _ env event p_data f d h = ground arith

override-rank : (event : Status) (d : DataLink) → rank (override event d).state ≤ rank d.state
override-rank event d = ground arith

round-Falls :
    (env : Env) (event : Status) (p_data : List ℕ) (f : Fields) (d : DataLink)
    → Falls d.state (round env event p_data f d)
unfolding round
round-Falls env event p_data f d h =
    let d' = override event d in
    omega (arith, override-rank event d, dispatch-Falls d'.state env event p_data f d' h)

rounds_total :
    (fuel : ℕ) (env : Env) (event : Status) (p_data : List ℕ) (f : Fields) (d : DataLink)
    → rank d.state ≤ fuel
    → (e : DataLink × List Output) × (rounds fuel env event p_data f d ≡ some e)
unfolding rounds
rounds_total zero env event p_data f d h = absurd (omega (arith, rank_bounds d.state))
rounds_total (suc fuel) env event p_data f d h =
    let r = round env event p_data f d in
    elim (Bool-cases r.more) [
      | inl more ↦
          let (e, ends) =
            rounds_total fuel env event p_data r.fields r.link
              (omega (arith, round-Falls env event p_data f d more)) in
          ((e.0, r.outputs ++ e.1), rw (more, ends))
      | inr stop ↦ ((r.link, r.outputs), rw stop)
    ]

-- One round of the loop, where it goes on and where it stops.
pub rounds-more :
    (fuel : ℕ) (env : Env) (event : Status) (p_data : List ℕ) (f : Fields) (d : DataLink)
    (r : Round)
    → round env event p_data f d ≡ r
    → r.more ≡ true
    → rounds (suc fuel) env event p_data f d
      ≡ prepend r.outputs (rounds fuel env event p_data r.fields r.link)
unfolding rounds
rounds-more fuel env event p_data f d r e more = rw (e, more)

pub rounds-stop :
    (fuel : ℕ) (env : Env) (event : Status) (p_data : List ℕ) (f : Fields) (d : DataLink)
    (r : Round)
    → round env event p_data f d ≡ r
    → r.more ≡ false
    → rounds (suc fuel) env event p_data f d ≡ some (r.link, r.outputs)
unfolding rounds
rounds-stop fuel env event p_data f d r e stop = rw (e, stop)

-- How a finished run of the loop came about.
pub rounds_cases :
    (fuel : ℕ) (env : Env) (event : Status) (p_data : List ℕ) (f : Fields) (d : DataLink)
    (e : DataLink × List Output)
    → rounds (suc fuel) env event p_data f d ≡ some e
    → let r = round env event p_data f d in
      ((r.more ≡ false) × (e ≡ (r.link, r.outputs)))
      ⊎ ((later : DataLink × List Output) × (r.more ≡ true)
          × (rounds fuel env event p_data r.fields r.link ≡ some later)
          × (e ≡ (later.0, r.outputs ++ later.1)))
unfolding rounds
rounds_cases fuel env event p_data f d e h =
    let r = round env event p_data f d in
    cases r.more (rounds fuel env event p_data r.fields r.link) refl h
  where
    cases :
        (more : Bool) (rest : Option (DataLink × List Output))
        → (round env event p_data f d).more ≡ more
        → (if more
            then prepend (round env event p_data f d).outputs rest
            else some ((round env event p_data f d).link, (round env event p_data f d).outputs))
          ≡ some e
        → ((more ≡ false)
            × (e ≡ ((round env event p_data f d).link, (round env event p_data f d).outputs)))
          ⊎ ((later : DataLink × List Output) × (more ≡ true)
              × (rest ≡ some later)
              × (e ≡ (later.0, (round env event p_data f d).outputs ++ later.1)))
    cases true none same k = cc
    cases true (some (d', later)) same k = inr ((d', later), refl, refl, ground arith)
    cases false rest same k = inl (refl, ground arith)

-- The rule for what a run of the loop reaches: `P` from round to round, `Q` where it stops.
module _ (P : Fields → DataLink → Type 0) (Q : DataLink → Type 0) (env : Env) (event : Status)
    (p_data : List ℕ)
    (keeps : (f : Fields) (d : DataLink)
      → P f d
      → (round env event p_data f d).more ≡ true
      → P (round env event p_data f d).fields (round env event p_data f d).link)
    (stops : (f : Fields) (d : DataLink)
      → P f d
      → (round env event p_data f d).more ≡ false
      → Q (round env event p_data f d).link) where
  pub rounds_rule :
      (fuel : ℕ) (f : Fields) (d : DataLink) (e : DataLink × List Output)
      → P f d
      → rounds fuel env event p_data f d ≡ some e
      → Q e.0
  rounds_rule zero f d e p h = unfold rounds in cc
  rounds_rule (suc fuel) f d e p h =
      let r = round env event p_data f d in
      elim (rounds_cases fuel env event p_data f d e h) [
        | inl (stop, same) ↦
            subst (λ (t : DataLink × List Output). Q t.0) (sym same) (stops f d p stop)
        | inr (later, more, rest, same) ↦
            subst (λ (t : DataLink × List Output). Q t.0) (sym same)
              (rounds_rule fuel r.fields r.link later (keeps f d p more) rest)
      ]

-- The event handler of the data link layer ends on every event in every state: the four rounds of
-- the model's loop are enough.
pub handle_total :
    (env : Env) (event : Status) (p_data : List ℕ) (d : DataLink)
    → (e : DataLink × List Output) × (handle env event p_data d ≡ some e)
unfolding handle
handle_total env event p_data d =
    rounds_total 4 env event p_data no_fields d ((rank_bounds d.state).1)
