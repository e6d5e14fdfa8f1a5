-- ===== src/Optiga/Comms/Tests.antt =====
-- Runs of the entry points at concrete inputs.
use decada_embedded_example.Base.{◌+◌, ◌≡◌, refl, List, [], ◌∷◌, ◌++◌, true, false}
use decada_embedded_example.Optiga.DataLink.Machine.{success, failure}
use decada_embedded_example.Optiga.Comms.Stack.{
  uninit, cold_reset, pin_low, Context, vdd_pin, reset_pin, set_low, set_high, call_later,
  init_transport, reset_low_time, startup_time, init_by, hard_init, on_transport_event,
  transceive_stack, open_stack, init,
}
use decada_embedded_example.Optiga.Comms.Client.{
  Client, Operation, transceive_comms, close_comms, open_comms, comms_open, perform_all, History,
  fresh, called, completed, perform, on_event, bit_of, one_completion_each, failed_start_blocks,
}

abbrev unopened : Context
unopened = record {
  state = uninit;
  busy = false;
  reset_state = pin_low;
  reset_type = cold_reset;
  do_pal_init = false;
  request_soft_reset = false;
  has_handler = false;
}

-- Opened, and told so; then one exchange under way.
abbrev free : Client
free = record { in_use = false; stack = unopened }

abbrev opening : Client
opening = (perform (open_comms success) free).1

abbrev opened : Client
opened = (on_event success opening).0

two_calls : History (perform (transceive_comms success) opened).1 2 1
unfolding on_event on_transport_event open_stack init_by hard_init transceive_stack
two_calls =
    called (completed (called (fresh unopened) (open_comms success)) refl success)
      (transceive_comms success)

one_completion_each_example : 2 ≡ 1 + bit_of (perform (transceive_comms success) opened).1.in_use
one_completion_each_example =
    one_completion_each (perform (transceive_comms success) opened).1 2 1 two_calls

abbrev three : List Operation
three = transceive_comms success ∷ close_comms ∷ open_comms success ∷ []

failed_start_blocks_example :
    let (accepted_as, client, first) = comms_open success free in
    let (driven_as, driven, second) = init success client.stack in
    let (ended_as, ended, third) = init failure driven in
    let after : Client = record client { stack = ended } in
    (accepted_as ≡ success)
    × (driven_as ≡ success)
    × (ended_as ≡ failure)
    × (first ++ (second ++ third)
        ≡ set_low vdd_pin
          ∷ set_low reset_pin
          ∷ call_later reset_low_time
          ∷ set_high vdd_pin
          ∷ set_high reset_pin
          ∷ call_later startup_time
          ∷ init_transport
          ∷ [])
    × (ended.busy ≡ true)
    × (ended.state ≡ uninit)
    × (perform_all three after ≡ (failure ∷ failure ∷ failure ∷ [], after, []))
failed_start_blocks_example = failed_start_blocks free success success three refl refl
