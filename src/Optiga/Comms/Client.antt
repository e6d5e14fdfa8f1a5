-- ===== src/Optiga/Comms/Client.antt =====
-- lib/optiga/comms/optiga_comms.c: one operation at a time on the stack.
use decada_embedded_example.Base.{
  ℕ, zero, suc, ◌+◌, ◌≤◌, ◌≡◌, refl, List, [], ◌∷◌, ◌++◌, Bool, true, false, if◌then◌else◌, arith,
}
use decada_embedded_example.Optiga.DataLink.Machine.{Status, success, failure, failed}
use decada_embedded_example.Optiga.Comms.Stack.{
  ResetType, cold_reset, Context, Output, tell, call_later, set_low, set_high, init_transport,
  vdd_pin, reset_pin, uninit, pin_high, reset_low_time, startup_time, init, init_by, hard_init,
  reset_init, open_stack, reset_stack, transceive_stack, close_stack, on_transport_event,
}

-- `optiga_comms_t` with the stack that its `comms_ctx` points to. `in_use` is OPTIGA_COMMS_INUSE.
pub record Client : Type 0 where
  pub in_use : Bool
  pub stack : Context

-- The four operations, with what the transport layer returns where it is called.
pub data Operation : Type 0 where
  open_comms : Status → Operation
  reset_comms : Status → ResetType → Operation
  transceive_comms : Status → Operation
  close_comms : Operation

-- How often the outputs call the client's handler.
abbrev pub told : List Output → ℕ
told [] = 0
told (tell event ∷ out) = suc (told out)
told (o ∷ out) = told out

abbrev is_zero : ℕ → Bool
is_zero zero = true
is_zero (suc n) = false

-- `check_optiga_comms_state` and what follows it in each operation, round the call of the stack. A
-- call of the handler from within the operation, as closing makes, frees the client, and so does a
-- failure.
abbrev pub guarded :
    (Context → Status × Context × List Output) → Client → Status × Client × List Output
guarded call client =
    let (status, c, out) = call (record client.stack { has_handler = true }) in
    if client.in_use then (failure, client, []) else (
      status,
      record { in_use = if failed status then false else is_zero (told out); stack = c },
      out,
    )

-- `optiga_comms_open`, `optiga_comms_reset`, `optiga_comms_transceive` and `optiga_comms_close`
abbrev pub comms_open : Status → Client → Status × Client × List Output
comms_open tl_status client = guarded (open_stack tl_status) client

abbrev pub comms_reset : Status → ResetType → Client → Status × Client × List Output
comms_reset tl_status kind client = guarded (reset_stack tl_status kind) client

abbrev pub comms_transceive : Status → Client → Status × Client × List Output
comms_transceive tl_status client = guarded (transceive_stack tl_status) client

abbrev pub comms_close : Client → Status × Client × List Output
comms_close client = guarded close_stack client

abbrev pub perform : Operation → Client → Status × Client × List Output
perform (open_comms tl_status) client = comms_open tl_status client
perform (reset_comms tl_status kind) client = comms_reset tl_status kind client
perform (transceive_comms tl_status) client = comms_transceive tl_status client
perform close_comms client = comms_close client

-- `ifx_i2c_event_handler`, called by `ifx_i2c_tl_event_handler` of the stack.
unfoldable pub on_event : Status → Client → Client × List Output
on_event event client =
    let (c, out) = on_transport_event event client.stack in
    (record { in_use = if is_zero (told out) then client.in_use else false; stack = c }, out)

abbrev pub bit_of : Bool → ℕ
bit_of true = 1
bit_of false = 0

abbrev accepted : Status → ℕ
accepted status = if failed status then 0 else 1

-- A history of the client from a free start: the client now, the operations that were accepted and
-- the completions that were reported. The transport layer reports only on an operation under way.
pub data History : Client → ℕ → ℕ → Type 0 where
  fresh : (c : Context) → History (record { in_use = false; stack = c }) 0 0
  called :
      {client : Client} {begun ended : ℕ}
      → History client begun ended
      → (op : Operation)
      → History
          (perform op client).1
          (accepted (perform op client).0 + begun)
          (told (perform op client).2 + ended)
  completed :
      {client : Client} {begun ended : ℕ}
      → History client begun ended
      → client.in_use ≡ true
      → (event : Status)
      → History (on_event event client).0 begun (told (on_event event client).1 + ended)

-- What the stack does in a call, seen from the client.
abbrev Heard : (Context → Status × Context × List Output) → Context → Type 0
Heard call c =
    let (status, after, out) = call c in (after.has_handler ≡ true) × (told out ≤ accepted status)

-- A client in use has an operation under way, and its handler is set.
record Ledger (client : Client) (begun ended : ℕ) : Type 0 where
  balance : begun ≡ ended + bit_of client.in_use
  heard : client.in_use ≡ true → client.stack.has_handler ≡ true

guarded-Ledger :
    (call : Context → Status × Context × List Output) (client : Client) (begun ended : ℕ)
    → Heard call (record client.stack { has_handler = true })
    → Ledger client begun ended
    → Ledger
        (guarded call client).1
        (accepted (guarded call client).0 + begun)
        (told (guarded call client).2 + ended)
guarded-Ledger call client begun ended facts l = record {
  balance = ground (arith, facts, l.balance);
  heard = λ h. ground (arith, facts, l.heard);
}

perform-Ledger :
    (op : Operation) (client : Client) (begun ended : ℕ)
    → Ledger client begun ended
    → Ledger
        (perform op client).1
        (accepted (perform op client).0 + begun)
        (told (perform op client).2 + ended)
unfolding open_stack reset_stack transceive_stack close_stack init_by hard_init on_transport_event
perform-Ledger (open_comms tl_status) client begun ended l =
    guarded-Ledger (open_stack tl_status) client begun ended (ground arith) l
perform-Ledger (reset_comms tl_status kind) client begun ended l =
    guarded-Ledger (reset_stack tl_status kind) client begun ended (ground arith) l
perform-Ledger (transceive_comms tl_status) client begun ended l =
    guarded-Ledger (transceive_stack tl_status) client begun ended (ground arith) l
perform-Ledger close_comms client begun ended l =
    guarded-Ledger close_stack client begun ended (ground arith) l

on_event-Ledger :
    (event : Status) (client : Client) (begun ended : ℕ)
    → Ledger client begun ended
    → client.in_use ≡ true
    → Ledger (on_event event client).0 begun (told (on_event event client).1 + ended)
unfolding on_event on_transport_event
on_event-Ledger event client begun ended l busy = record {
  balance = ground (arith, l.balance, l.heard busy, busy);
  heard = λ h. ground (arith, l.heard busy, busy);
}

ledger :
    (client : Client) (begun ended : ℕ) → History client begun ended → Ledger client begun ended
ledger client begun ended (fresh c) = record { balance = refl; heard = λ h. absurd (ground arith) }
ledger client begun ended (called h op) = perform-Ledger op _ _ _ (ledger _ _ _ h)
ledger client begun ended (completed h busy event) =
    on_event-Ledger event _ _ _ (ledger _ _ _ h) busy

-- After any sequence of operations and completions, every operation that was accepted has been
-- reported as complete exactly once, but for the one under way while the client is in use.
pub one_completion_each :
    (client : Client) (begun ended : ℕ)
    → History client begun ended
    → begun ≡ ended + bit_of client.in_use
one_completion_each client begun ended h = (ledger client begun ended h).balance

-- While an operation is under way every other one is refused, without an effect.
refused :
    (op : Operation) (client : Client)
    → client.in_use ≡ true
    → perform op client ≡ (failure, client, [])
refused (open_comms tl_status) client busy = rw busy refl
refused (reset_comms tl_status kind) client busy = rw busy refl
refused (transceive_comms tl_status) client busy = rw busy refl
refused close_comms client busy = rw busy refl

-- The operations of a client, one after the other: what each returns, and all that is put out.
abbrev pub perform_all : List Operation → Client → List Status × Client × List Output
perform_all [] client = ([], client, [])
perform_all (op ∷ ops) client =
    let (status, after, out) = perform op client in
    let (statuses, last, later) = perform_all ops after in (status ∷ statuses, last, out ++ later)

abbrev pub all_refused : List Operation → List Status
all_refused [] = []
all_refused (op ∷ ops) = failure ∷ all_refused ops

all_refused_lem :
    (ops : List Operation) (client : Client)
    → client.in_use ≡ true
    → perform_all ops client ≡ (all_refused ops, client, [])
all_refused_lem [] client busy = refl
all_refused_lem (op ∷ ops) client busy =
    rw (refused op client busy, all_refused_lem ops client busy) refl

-- A client that is free, over a stack that is not busy, opens it: the operation is accepted, and the pins
-- are driven by it and by the first timer callback. If then the transport layer's initialisation fails in
-- the second callback, the callback returns that, but in all this the client is told nothing; the stack
-- stays busy and not initialised; and whatever operations the client then calls, each one returns a
-- failure, and they put nothing out and change nothing.
pub failed_start_blocks :
    (client : Client) (any other : Status) (ops : List Operation)
    → client.in_use ≡ false
    → client.stack.busy ≡ false
    → let (accepted_as, opened, first) = comms_open any client in
      let (driven_as, driven, second) = init other opened.stack in
      let (ended_as, ended, third) = init failure driven in
      let after : Client = record opened { stack = ended } in
      (accepted_as ≡ success)
      × (driven_as ≡ success)
      × (ended_as ≡ failure)
      × (first ++ (second ++ third)
          ≡ set_low vdd_pin
            ∷ set_low reset_pin
            ∷ call_later reset_low_time
            ∷ set_high vdd_pin
            ∷ set_high reset_pin
            ∷ call_later startup_time
            ∷ init_transport
            ∷ [])
      × (ended.busy ≡ true)
      × (ended.state ≡ uninit)
      × (perform_all ops after ≡ (all_refused ops, after, []))
unfolding open_stack init_by hard_init
failed_start_blocks client any other ops free idle =
    let driving : Context = record client.stack {
      has_handler = true;
      reset_type = cold_reset;
      reset_state = pin_high;
      do_pal_init = true;
      state = uninit;
      busy = true;
    } in
    let begun : comms_open any client ≡ (
      success,
      record { in_use = true; stack = driving },
      set_low vdd_pin ∷ set_low reset_pin ∷ call_later reset_low_time ∷ [],
    ) =
      rw (free, idle) refl in
    let ended : Client = record {
      in_use = true;
      stack = record driving { reset_state = reset_init };
    } in
    rw begun (refl, refl, refl, refl, refl, refl, all_refused_lem ops ended refl)
