-- ===== src/Lib.antt =====
-- The communication stack of the OPTIGA Trust X secure element, as the firmware of this repository
-- carries it in lib/optiga, modelled layer by layer from the wire upwards.
--
-- The stack: lib/optiga/comms/ifx_i2c has a physical layer (registers over I2C), a data link layer
-- (frames with a checksum, sequence numbers, acknowledgement and repetition) and a transport layer
-- (packets cut into chained fragments). Each layer calls the one below through its functions and is
-- called back by it through an event handler; the layers share one context, `ifx_i2c_context_t`.
--
-- Optiga/Physical models lib/optiga/comms/ifx_i2c/ifx_i2c_physical_layer.c. `Machine` has the layer's
-- state (`ifx_i2c_pl_t` and what it uses of the context) and the two accesses to a register.
-- `Negotiation` has `ifx_i2c_pl_negotiation_event_handler`: a function for each longer case of the
-- switch, `dispatch` for the switch, `rounds` for the loop. `Frames` has the frame event handler
-- (`frame_step`), the soft reset (`reset_step`), the callbacks of the timer (`on_timer`) and of the
-- driver (`on_pal_event`), and the functions that the data link layer calls (`init_physical`,
-- `send_bytes`, `receive_bytes`, for `ifx_i2c_pl_init` and so on). `Frames/Run` puts these together:
-- a list of stimuli is what the driver, the timer and the layer above do, in order, and `run` is what
-- the layer makes of it. The bytes that the driver reads are in the stimulus that ends the read. The
-- busy wait and the delays of `ifx_i2c_pl_write_slave_address` are left out: its definition is given
-- the driver's events, one for each attempt. `FrameSize` has the initialisation of the physical and the
-- transport layer together.
--
-- Optiga/DataLink models lib/optiga/comms/ifx_i2c/ifx_i2c_data_link_layer.c. `Crc` has
-- `ifx_i2c_dl_calc_crc_byte` and `ifx_i2c_dl_calc_crc`. `Frame` has the control byte and the layout
-- of a frame, as `ifx_i2c_dl_send_frame_internal` writes it (`seal`, `data_fctr`, `control_fctr`) and
-- the receive states read it (`analyse`). `Machine` has the layer's state (`ifx_i2c_dl_t` and the two
-- frame buffers) and its functions under their names without the prefix `ifx_i2c_dl_`. `Handler` has
-- `ifx_i2c_pl_event_handler`: one function for each case of the switch, `dispatch` for the switch,
-- `round` for the body of the loop and `handle` for the handler. Its children hold the proofs.
--
-- Optiga/Transport models lib/optiga/comms/ifx_i2c/ifx_i2c_transport_layer.c. `Machine` has the layer's
-- state (`ifx_i2c_tl_t` and the transmit buffer, which it shares with the data link layer) and its
-- functions under their names without the prefix `ifx_i2c_tl_`. `Handler` has
-- `ifx_i2c_dl_event_handler` in the same form as above: `while_tx` and its like for the cases of the
-- switch, `dispatch`, `round` and `handle`. `Fragment` has lemmas on the cutting of a packet,
-- `Handler/Reassemble` and `Handler/InStep` on taking one fragment in.
-- `Handler/Refusal` follows a packet to a data link layer that refuses to receive.
--
-- Optiga/Comms models the entry points above the stack: `Stack` has lib/optiga/comms/ifx_i2c/ifx_i2c.c
-- (`open_stack` for `ifx_i2c_open` and so on, `init` for the callback `ifx_i2c_init` that drives the
-- pins), `Client` has lib/optiga/comms/optiga_comms.c: `guarded` for the test and the bookkeeping that
-- its operations share, `comms_open` and its like for the four, `perform` for any of them, and
-- `on_event` for the completion.
--
-- Optiga/Util models the helpers of lib/optiga/common/Util.c that the command library and the DTLS
-- sources share: `Uint64` has the numbers of two words, `Bytes` the numbers in buffers, `Memmove` the
-- copy between buffers that may overlap, `Window` the shift and the setting of a bit of a 64-bit
-- window, with the laws of each bit in its children. The pointers of a call are a memory and places in it.
--
-- Optiga/Dtls models parts of the DTLS sources in lib/optiga/dtls. `Windowing` is the anti-replay window of
-- DtlsWindowing.c: `check_replay` for `DtlsCheckReplay`, in the parts `slide`
-- for a number above the window and `is_marked` and `mark` for one inside. The callback that decrypts and
-- validates the record is an argument, its result; it leaves the window alone. `Refine` says which set of
-- numbers a window stands for. `Record` is the record layer, DtlsRecordLayer.c: `prepare_record` and
-- `process_record` for the functions with these words in their names, `send` for `DtlsRL_Send`, `record_count`
-- for `DtlsRL_GetRecordCount`, whose fuel is the number of bytes, since each round takes a header at least,
-- and `Record/Receive` `recv` for `DtlsRL_Recv`: `pick` finds the next record, `place_of` the window for its
-- epoch, and `check_record` joins the window's check with the processing. Encryption and
-- the transport layer are arguments. `Record/Header` reads records back from their bytes. `Alert` is
-- AlertProtocol.c, with `send_alert` on top of `send`.
--
-- Optiga/Cmd models the command library, lib/optiga/cmd/CommandLib.c: `Apdu` the layout of a
-- command and its exchange (`transceive_apdu` for `TransceiveAPDU`), `Opening` the opening of the application,
-- `SetData` the write of a data object (`set_data_object` for `CmdLib_SetDataObject`), `GetData` the read,
-- `Auth` the authentication scheme, the signature of a challenge and random numbers, `CalcHash` the steps of
-- a hash, `Toolbox` the verification and calculation of a signature, the shared secret and the derived
-- key, and `KeyPair` the generation of keys with the loop over the answer (`read_keys`). `Request` has what
-- the commands with an allocated buffer share: a `Request` is a command with the size of its buffer,
-- `transact` sends it and gives `none` for a write behind the buffer. `Request/Fields` reads the
-- tagged fields of a payload back from its bytes. The device with the stack below is a parameter, a function
-- of the commands before and the command now; the state is the list of the commands sent, and wMaxCommsBuffer
-- is an argument. `SetData/Effect` reads the commands' bytes back as what they do to an object, `GetData/Serve` says what a device that holds an object
-- answers. The fuel of the write and the read is the number of bytes to write or wanted, since each round but
-- the last moves one at least; that of the loop over the keys is the size of the buffer, of which each round
-- takes three bytes.
--
-- Optiga/Crypt models lib/optiga/crypt/optiga_crypt.c: `Hash` the start, the update and the end of a
-- hash whose context is at the host, `Keys` the other functions, which fill in the options of one command.
-- The loop of the update (`update_steps`) has the number of bytes and two as its fuel, since each step but the
-- first and the last hashes a byte at least. `Hash/Step` says what a device that hashes keeps and answers,
-- for any function that takes a context on by bytes, `Keys/Sign` what one that signs answers. Optiga/Objects models the reads and writes of lib/optiga/util/optiga_util.c, and
-- `Objects/RoundTrip` a device that keeps what is written. Optiga/Status has their statuses. The lock that
-- each function of optiga_crypt.c takes round its command is left out.
--
-- For the data link layer the physical layer is an input: `Env` of `DataLink/Machine` holds what its
-- functions return in an activation and what the millisecond timer reads, and the event and the bytes it delivers are
-- arguments of `handle`. Calls of it and of the transport layer's handler are outputs. A call made
-- last in a branch of a handler stands last in the outputs, so that what the callee does to the
-- shared context happens after the activation, as in the code.
--
-- The transport layer sees the data link layer in the same way: what its functions return is in the
-- `Env` of `Transport/Machine`, the events it raises and the data with them are arguments of `handle`.
-- That `Env` also has the two bytes that the code reads behind `pctr_states_table`.
--
-- The `do ... while` loops of the handlers run on fuel, 4 rounds in the physical layer and in the data
-- link layer and 5 in the transport layer: a round goes on only into a state that is nearer to the end of
-- the activation, and no chain of such states is longer.
--
-- Base has what all parts share: comparison tests and the conditional of C, buffers as lists with
-- native indices, unsigned arithmetic with the wrap-around written out, and the bitwise operators with
-- their laws. A read or write outside a buffer is undefined in C; where the model gives it a value, the
-- theorems that depend on it assume that there is room.
--
-- Not modelled: the I2C driver, the pins and the timer of lib/optiga/pal, which are C++; of the command
-- library the DTLS messages and the encryption of data, and of the DTLS sources the handshake and flight
-- layers and `Dtls_SlideWindow`, all built only with a feature that is off;
-- optiga_util_open_application, which waits for a callback; the sensors, threads and services of the
-- firmware, which are C++; the copies of other projects (http_parser, MQTTPacket, JsonCpp); logging.
mod Base
pub mod Optiga
