-- ===== src/Optiga/Transport/Handler/Reassemble.antt =====
-- How the layer takes in one fragment of a packet.
use decada_embedded_example.Base.{
  ℕ, ◌+◌, ◌-◌, ◌^◌, ◌≤◌, ◌<◌, ◌≡◌, ◌⊎◌, refl, ap, ◌∙◌, List, [], ◌∷◌, ◌++◌, false, some, length,
  drop, copy_to_behind, bit_and, arith,
}
use decada_embedded_example.Base.Word.{u16}
use decada_embedded_example.Optiga.DataLink.Machine.{success, on_rx}
use decada_embedded_example.Optiga.Transport.Machine.{
  idle, rx, chaining, Transport, Env, ask, deliver, check_chaining_error, chaining_no,
  chaining_first, chaining_intermediate, chaining_last,
}
use decada_embedded_example.Optiga.Transport.Handler.{
  is_mem_error, continue_in, stop_with, prepend, store, complete, dispatch, round, handle,
}
use decada_embedded_example.Optiga.Transport.Handler.Total.{rounds-goes_on, rounds-ends}

-- The layer between two fragments: its buffer begins with what it has `got`, and has `room` left.
pub record Reading (t : Transport) (got room : List ℕ) : Type 0 where
  pub waiting : t.state ≡ rx
  pub sound : is_mem_error t.error_event ≡ false
  pub count : t.total_recv_length ≡ length got
  pub held : t.recv_buffer ≡ got ++ room

-- A chaining byte, on the channel that the layer serves.
pub record Chaining (c : ℕ) : Type 0 where
  pub chain : bit_and c 0x07 ≡ c
  pub channel : bit_and c 0xf8 ≡ 0

module _ (env : Env) (t : Transport) (got room : List ℕ) (c : ℕ) (fragment : List ℕ)
    (r : Reading t got room) (byte : Chaining c)
    (fits : check_chaining_error env c t.previous_chaining ≡ success)
    (enough : length fragment ≤ length room) (short : length got + length fragment < 2 ^ 16) where
  abbrev filled : List ℕ
  filled = got ++ (fragment ++ drop (length fragment) room)

  stored :
      store (some (c ∷ fragment)) t
      ≡ record t { recv_buffer = filled; total_recv_length = length got + length fragment }
  stored =
      let n : u16 (t.total_recv_length + (length (c ∷ fragment) - 1))
          ≡ length got + length fragment =
        omega (arith, r.count) in
      rw (n, r.count, r.held)
        (ap (λ b. record t { recv_buffer = b; total_recv_length = length got + length fragment })
          (copy_to_behind got room fragment enough))

  round-complete :
      (c ≡ chaining_no) ⊎ (c ≡ chaining_last)
      → round env on_rx (some (c ∷ fragment)) t
        ≡ complete (some (c ∷ fragment)) (record t { previous_chaining = c })
  unfolding round dispatch
  round-complete last = ground (arith, r.waiting, r.sound, byte.chain, byte.channel, fits)

  round-chaining :
      (c ≡ chaining_first) ⊎ (c ≡ chaining_intermediate)
      → round env on_rx (some (c ∷ fragment)) t
        ≡ continue_in (record t { previous_chaining = c }) chaining
  unfolding round dispatch
  round-chaining more = ground (arith, r.waiting, r.sound, byte.chain, byte.channel, fits)

  -- The state after the fragment was put behind what was there.
  abbrev pub advanced : Transport
  advanced = record t {
    previous_chaining = c;
    recv_buffer = filled;
    total_recv_length = length got + length fragment;
  }

  -- The only or last fragment completes the packet.
  pub takes_last :
      (c ≡ chaining_no) ⊎ (c ≡ chaining_last)
      → handle env on_rx (some (c ∷ fragment)) t
        ≡ some (
          record advanced { state = idle; recv_length = length got + length fragment },
          deliver (length got + length fragment) filled ∷ [],
        )
  unfolding handle
  takes_last last =
      rounds-ends 4 env on_rx (some (c ∷ fragment)) t
        (complete (some (c ∷ fragment)) (record t { previous_chaining = c })) (round-complete last)
        refl
      ∙ ap
          (λ u. some (
            record u { previous_chaining = c; state = idle; recv_length = u.total_recv_length },
            deliver u.total_recv_length u.recv_buffer ∷ [],
          ))
          stored

  round-stores :
      env.receive_status ≡ success
      → length fragment ≡ t.max_packet_length
      → length got + length fragment ≤ t.recv_length
      → round env on_rx (some (c ∷ fragment)) (record t { previous_chaining = c; state = chaining })
        ≡ stop_with
            (record (store (some (c ∷ fragment)) t) { previous_chaining = c; state = rx })
            (ask ∷ [])
  unfolding round dispatch
  round-stores ok full small = ground (arith, byte.channel, r.count)

  -- A fragment with more to follow is kept, and the next one is asked for.
  pub takes_more :
      (c ≡ chaining_first) ⊎ (c ≡ chaining_intermediate)
      → env.receive_status ≡ success
      → length fragment ≡ t.max_packet_length
      → length got + length fragment ≤ t.recv_length
      → handle env on_rx (some (c ∷ fragment)) t ≡ some (record advanced { state = rx }, ask ∷ [])
  unfolding handle
  takes_more more ok full small =
      rounds-goes_on 4 env on_rx (some (c ∷ fragment)) t
        (continue_in (record t { previous_chaining = c }) chaining) (round-chaining more) refl
      ∙ ap (prepend []) (
          rounds-ends 3 env on_rx (some (c ∷ fragment))
            (record t { previous_chaining = c; state = chaining })
            (stop_with
              (record (store (some (c ∷ fragment)) t) { previous_chaining = c; state = rx })
              (ask ∷ []))
            (round-stores ok full small) refl)
      ∙ ap (λ u. some (record u { previous_chaining = c; state = rx }, ask ∷ [])) stored
