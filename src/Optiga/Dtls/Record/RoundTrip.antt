-- ===== src/Optiga/Dtls/Record/RoundTrip.antt =====
-- Records between two record layers, encrypted or not.
use decada_embedded_example.Base.{
  ℕ, ◌+◌, ◌^◌, ◌≤◌, ◌<◌, ◌≡◌, refl, sym, ap, ◌∙◌, List, [], ◌++◌, Bool, true, false, ◌&&◌, length,
  take, take_all, drop, drop-append, ltb, ltb-eq-false, ◌==◌, Bool-cases, inl, inr, if◌then◌else◌,
  arith,
}
use decada_embedded_example.Optiga.Util.Uint64.{Uint64}
use decada_embedded_example.Optiga.Util.Bytes.{get_uint16}
use decada_embedded_example.Optiga.Dtls.Record.{
  RecordLayer, rl_ok, Ciphered, ciphered, is_enabled, moved_on, number_now, counted, changed,
  cipher_spec, handshake_record, app_data, header, rl_header_len, min_dec_payload, prepare_record,
  process_record,
}
use decada_embedded_example.Optiga.Dtls.Record.Header.{
  Wire, wire_bytes, read_version, read_epoch, read_len,
}

-- The encryption of a record and its inverse: the header stays but for the length, and the fragment grows
-- by 16 bytes, the nonce and the authentication code.
abbrev pub Ciphers : (List ℕ → Ciphered) → (List ℕ → Ciphered) → Type 0
Ciphers encrypt decrypt =
    (content version epoch : ℕ) (number : Uint64) (plain : List ℕ)
    → (fragment : List ℕ) × (length fragment ≡ length plain + 16)
      × (encrypt (header content version epoch number (length plain) ++ plain)
          ≡ ciphered (header content version epoch number (length fragment) ++ fragment))
      × (decrypt (header content version epoch number (length fragment) ++ fragment)
          ≡ ciphered (header content version epoch number (length plain) ++ plain))

-- The record of a layer.
abbrev pub wire_of : RecordLayer → ℕ → List ℕ → Wire
wire_of rl content body = record {
  content = content;
  version = rl.tls_version;
  epoch = rl.client_next_epoch;
  number = number_now rl;
  body = body;
}

-- A layer that can send: its version and epoch are words, its epochs are in order, and it has a number left.
pub record CanSend (rl : RecordLayer) : Type 0 where
  pub version_word : rl.tls_version < 2 ^ 16
  pub epoch_word : rl.client_next_epoch < 2 ^ 16
  pub in_order : rl.client_epoch ≤ rl.client_next_epoch
  pub number_left : (number_now rl).higher < 2 ^ 16

prepared_plain :
    (encrypt : List ℕ → Ciphered) (rl : RecordLayer) (content room : ℕ) (bytes : List ℕ)
    → CanSend rl
    → is_enabled rl ≡ false
    → 0 < length bytes
    → 11 ≤ room
    → prepare_record encrypt rl content bytes room
      ≡ (rl_ok, counted (moved_on rl) (changed content rl), wire_bytes (wire_of rl content bytes))
unfolding prepare_record
prepared_plain encrypt rl content room bytes can plain some_bytes space =
    let e1 : (room == 0) ≡ false = ground arith in
    let e2 : (length bytes == 0) ≡ false = ground arith in
    let e3 : ltb rl.client_next_epoch rl.client_epoch ≡ false = ltb-eq-false _ _ can.in_order in
    let e4 : ltb room 11 ≡ false = ltb-eq-false _ _ space in
    let e5 : ((number_now rl).higher == 0x10000) ≡ false = ground (arith, can.number_left) in
    rw (prepare_record, e1, e2, e3, e4, e5, plain) refl

prepared_secret :
    (encrypt : List ℕ → Ciphered) (rl : RecordLayer) (content room : ℕ) (bytes fragment : List ℕ)
    → CanSend rl
    → is_enabled rl ≡ true
    → 0 < length bytes
    → 11 ≤ room
    → encrypt (wire_bytes (wire_of rl content bytes))
      ≡ ciphered (wire_bytes (wire_of rl content fragment))
    → prepare_record encrypt rl content bytes room
      ≡ (rl_ok, counted (moved_on rl) rl, wire_bytes (wire_of rl content fragment))
unfolding prepare_record
prepared_secret encrypt rl content room bytes fragment can secret some_bytes space e =
    let e1 : (room == 0) ≡ false = ground arith in
    let e2 : (length bytes == 0) ≡ false = ground arith in
    let e3 : ltb rl.client_next_epoch rl.client_epoch ≡ false = ltb-eq-false _ _ can.in_order in
    let e4 : ltb room 11 ≡ false = ltb-eq-false _ _ space in
    let e5 : ((number_now rl).higher == 0x10000) ≡ false = ground (arith, can.number_left) in
    rw (prepare_record, e1, e2, e3, e4, e5, secret, e) refl

-- The receiver takes records of the type, version and epoch of `w`.
record Takes (r : RecordLayer) (expected room : ℕ) (w : Wire) : Type 0 where
  same_version : r.tls_version ≡ w.version
  version_word : w.version < 2 ^ 16
  epoch_word : w.epoch < 2 ^ 16
  some_room : 0 < room
  no_change : (w.content == cipher_spec) ≡ false
  taken : ((expected == handshake_record) && (w.content == app_data)) ≡ false
  some_bytes : 0 < length w.body
  short : length w.body < 2 ^ 16

processed_plain :
    (decrypt : List ℕ → Ciphered) (heap : Bool) (r : RecordLayer) (expected room : ℕ) (w : Wire)
    → Takes r expected room w
    → (is_enabled r && (w.epoch == r.client_next_epoch)) ≡ false
    → process_record decrypt heap r expected room (wire_bytes w)
      ≡ record { status = rl_ok; layer = record r { dec = 0 }; content = w.content; bytes = w.body }
unfolding process_record get_uint16
processed_plain decrypt heap r expected room w t plain =
    let rec = wire_bytes w in
    let len : get_uint16 rec 11 ≡ length w.body = read_len w [] t.short in
    let epoch : get_uint16 rec 3 ≡ w.epoch = read_epoch w [] t.epoch_word in
    let e1 : (length rec == 0) ≡ false = ground arith in
    let e2 : (room == 0) ≡ false = ground (arith, t.some_room) in
    let e3 : (r.tls_version == get_uint16 rec 1) ≡ true =
      ground (arith, read_version w [] t.version_word, t.same_version) in
    let e4 : ltb (length rec) (length w.body + rl_header_len) ≡ false =
      ltb-eq-false _ _ (omega arith) in
    let whole : take (length w.body) w.body ≡ w.body =
      take_all (length w.body) w.body (omega arith) in
    rw (process_record, len, epoch, e1, e2, e3, e4, t.no_change, t.taken, plain, whole) refl

processed_secret :
    (decrypt : List ℕ → Ciphered) (r : RecordLayer) (expected room : ℕ) (w : Wire)
    (head bytes : List ℕ)
    → Takes r expected room w
    → (is_enabled r && (w.epoch == r.client_next_epoch)) ≡ true
    → min_dec_payload ≤ length w.body
    → decrypt (wire_bytes w) ≡ ciphered (head ++ bytes)
    → length head ≡ rl_header_len
    → process_record decrypt true r expected room (wire_bytes w)
      ≡ record { status = rl_ok; layer = record r { dec = 1 }; content = w.content; bytes = bytes }
unfolding process_record get_uint16
processed_secret decrypt r expected room w head bytes t secret long e len_head =
    let rec = wire_bytes w in
    let len : get_uint16 rec 11 ≡ length w.body = read_len w [] t.short in
    let epoch : get_uint16 rec 3 ≡ w.epoch = read_epoch w [] t.epoch_word in
    let e1 : (length rec == 0) ≡ false = ground arith in
    let e2 : (room == 0) ≡ false = ground (arith, t.some_room) in
    let e3 : (r.tls_version == get_uint16 rec 1) ≡ true =
      ground (arith, read_version w [] t.version_word, t.same_version) in
    let e4 : ltb (length rec) (length w.body + rl_header_len) ≡ false =
      ltb-eq-false _ _ (omega arith) in
    let e5 : ltb (length w.body) min_dec_payload ≡ false = ltb-eq-false _ _ long in
    let whole : drop rl_header_len (head ++ bytes) ≡ bytes =
      ap (λ n. drop n (head ++ bytes)) (sym len_head) ∙ drop-append head bytes in
    rw (process_record, len, epoch, e1, e2, e3, e4, t.no_change, t.taken, secret, e5, e, whole) refl

abbrev pub flag_of : Bool → ℕ
flag_of b = if b then 1 else 0

-- The sender has a number left and words for its version and epoch; the receiver has its version, and it
-- decrypts what comes in the sender's epoch exactly when the sender encrypts; decryption undoes
-- encryption. The data is not empty, and its length has 16 bits after encryption too; both ends have room;
-- the record is no change of the cipher, and not application data where a handshake is expected. Then the
-- record is prepared and the sender's number is counted up, and the receiver, with memory to decrypt, takes the
-- record with its type and exactly the data, and notes whether it was encrypted.
pub process_record-prepare_record :
    (encrypt decrypt : List ℕ → Ciphered) (s r : RecordLayer)
    (content expected room_out room_in : ℕ) (bytes : List ℕ)
    → Ciphers encrypt decrypt
    → CanSend s
    → r.tls_version ≡ s.tls_version
    → (is_enabled r && (s.client_next_epoch == r.client_next_epoch)) ≡ is_enabled s
    → 0 < length bytes
    → length bytes + 16 < 2 ^ 16
    → 11 ≤ room_out
    → 0 < room_in
    → (content == cipher_spec) ≡ false
    → ((expected == handshake_record) && (content == app_data)) ≡ false
    → (sent : List ℕ) × (prepare_record encrypt s content bytes room_out
        ≡ (rl_ok, counted (moved_on s) s, sent))
      × (process_record decrypt true r expected room_in sent ≡ record {
        status = rl_ok;
        layer = record r { dec = flag_of (is_enabled s) };
        content = content;
        bytes = bytes;
      })
process_record-prepare_record encrypt decrypt s r content expected room_out room_in bytes ciphers
      can same modes some_bytes short space space_in no_change taken =
    let takes : (body : List ℕ)
        → 0 < length body
        → length body < 2 ^ 16
        → Takes r expected room_in (wire_of s content body) =
      λ body some_body short_body. record {
        same_version = same;
        version_word = can.version_word;
        epoch_word = can.epoch_word;
        some_room = space_in;
        no_change = no_change;
        taken = taken;
        some_bytes = some_body;
        short = short_body;
      } in
    elim (Bool-cases (is_enabled s)) [
      | inl secret ↦
          let (fragment, len, e, d) =
            ciphers content s.tls_version s.client_next_epoch (number_now s) bytes in
          let sent =
            prepared_secret encrypt s content room_out bytes fragment can secret some_bytes space
              e in
          let got =
            processed_secret decrypt r expected room_in (wire_of s content fragment)
              (header content s.tls_version s.client_next_epoch (number_now s) (length bytes)) bytes
              (takes fragment (omega (arith, len)) (omega (arith, len))) (modes ∙ secret)
              (omega (arith, len)) d refl in
          (wire_bytes (wire_of s content fragment), sent, got ∙ rw secret refl)
      | inr plain ↦
          let sent = prepared_plain encrypt s content room_out bytes can plain some_bytes space in
          let got =
            processed_plain decrypt true r expected room_in (wire_of s content bytes)
              (takes bytes some_bytes (omega arith)) (modes ∙ plain) in
          (wire_bytes (wire_of s content bytes), sent ∙ rw no_change refl, got ∙ rw plain refl)
    ]
