-- ===== src/Session/Handshake.antt =====
-- `run_handshake`, `dial` and `accept` of crates/ud-net/src/session.rs. The Noise state of the library snow is
-- a parameter with its calls, and so is the JSON form of a DeviceInfo.
pub mod Agreement
use uniondesk.Common.{
  ℕ, Bool, true, false, Option, none, some, [], ◌++◌, ◌⊎◌, inl, inr, if◌then◌else◌, ltb,
}
use uniondesk.Protocol.{DeviceInfo}
use uniondesk.Codec.{Bytes, CodecError, write_record, read_record}
use uniondesk.Session.{Cipher}

-- `snow::HandshakeState` and the builder, which is given this machine's private key; S is its state.
pub record Noise (S : Type 0) : Type 0 where
  pub build_initiator : Bytes → Option S
  pub build_responder : Bytes → Option S
  pub write_message : S → Bytes → Option (S × Bytes)
  pub read_message : S → Bytes → Option (S × Bytes)
  pub get_remote_static : S → Option Bytes
  pub into_stateless_transport_mode : S → Option Cipher

-- `serde_json::to_vec` and `from_slice`, of a DeviceInfo.
pub record InfoJson : Type 0 where
  pub to_vec : DeviceInfo → Option Bytes
  pub from_slice : Bytes → Option DeviceInfo

pub data HandshakeError : Type 0 where
  codec : CodecError → HandshakeError
  crypto json io no_hello timed_out : HandshakeError

pub data Role : Type 0 where
  initiator responder : Role

pub record HandshakeOutcome : Type 0 where
  pub remote_static : Bytes
  pub hello : DeviceInfo
  pub is_initiator : Bool

-- A handshake under way: the stream to read, what has been written, the plain text that was read last, the
-- hello of the peer, whether the socket takes bytes, and the error that ended it.
pub record Talk (S : Type 0) : Type 0 where
  pub state : S
  pub stream : Bytes
  pub wire : Bytes
  pub plain : Bytes
  pub hello : Option DeviceInfo
  pub is_writable : Bool
  pub failure : Option HandshakeError

abbrev pub fail : {S : Type 0} → HandshakeError → Talk S → Talk S
fail e t = record t { failure = some e }

abbrev pub put : {S : Type 0} → CodecError ⊎ Bytes → Talk S → Talk S
put (inl e) t = fail (codec e) t
put (inr bytes) t =
    if t.is_writable then record t { wire = t.wire ++ bytes } else fail HandshakeError.io t

abbrev pub say_sealed : {S : Type 0} → Option (S × Bytes) → Talk S → Talk S
say_sealed none t = fail HandshakeError.crypto t
say_sealed (some (state, message)) t = put (write_record message) (record t { state = state })

abbrev pub say_unless : {S : Type 0} → Noise S → Bytes → Option HandshakeError → Talk S → Talk S
say_unless noise payload (some e) t = t
say_unless noise payload none t = say_sealed (noise.write_message t.state payload) t

-- `write_message` and `write_record`, unless the handshake has failed.
unfoldable pub say : {S : Type 0} → Noise S → Bytes → Talk S → Talk S
say noise payload t = say_unless noise payload t.failure t

abbrev pub hear_opened : {S : Type 0} → Option (S × Bytes) → Talk S → Talk S
hear_opened none t = fail HandshakeError.crypto t
hear_opened (some (state, plain)) t = record t { state = state; plain = plain }

abbrev pub hear_record : {S : Type 0} → Noise S → CodecError ⊎ (Bytes × Bytes) → Talk S → Talk S
hear_record noise (inl e) t = fail (codec e) t
hear_record noise (inr (body, rest)) t =
    hear_opened (noise.read_message t.state body) (record t { stream = rest })

abbrev pub hear_unless : {S : Type 0} → Noise S → Option HandshakeError → Talk S → Talk S
hear_unless noise (some e) t = t
hear_unless noise none t = hear_record noise (read_record t.stream) t

-- `read_record` and `read_message`
unfoldable pub hear : {S : Type 0} → Noise S → Talk S → Talk S
hear noise t = hear_unless noise t.failure t

abbrev pub parsed : {S : Type 0} → Option DeviceInfo → Talk S → Talk S
parsed none t = fail HandshakeError.json t
parsed (some d) t = record t { hello = some d }

abbrev pub parse_unless : {S : Type 0} → InfoJson → Option HandshakeError → Talk S → Talk S
parse_unless serde (some e) t = t
parse_unless serde none t = parsed (serde.from_slice t.plain) t

-- `serde_json::from_slice` of what was read.
unfoldable pub parse : {S : Type 0} → InfoJson → Talk S → Talk S
parse serde t = parse_unless serde t.failure t

-- The three messages, from the side of each role.
abbrev pub talk : {S : Type 0} → Noise S → InfoJson → Role → Bytes → Talk S → Talk S
talk noise serde initiator payload t = say noise payload (parse serde (hear noise (say noise [] t)))
talk noise serde responder payload t = parse serde (hear noise (say noise payload (hear noise t)))

-- What the handshake leaves: the bytes written, the bytes not read, and the outcome with the cipher.
pub record Handshake : Type 0 where
  pub wire : Bytes
  pub rest : Bytes
  pub result : HandshakeError ⊎ (HandshakeOutcome × Cipher)

abbrev pub is_initiator_of : Role → Bool
is_initiator_of initiator = true
is_initiator_of responder = false

abbrev pub outcome_of :
    Role
    → Option HandshakeError
    → Option DeviceInfo
    → Option Bytes
    → Option Cipher
    → HandshakeError ⊎ (HandshakeOutcome × Cipher)
outcome_of role (some e) hello key cipher = inl e
outcome_of role none none key cipher = inl HandshakeError.no_hello
outcome_of role none (some d) none cipher = inl HandshakeError.crypto
outcome_of role none (some d) (some key) none = inl HandshakeError.crypto
outcome_of role none (some d) (some key) (some cipher) =
    inr (record { remote_static = key; hello = d; is_initiator = is_initiator_of role }, cipher)

abbrev pub finish : {S : Type 0} → Noise S → Role → Talk S → Handshake
finish noise role t = record {
  wire = t.wire;
  rest = t.stream;
  result =
      outcome_of role t.failure t.hello (noise.get_remote_static t.state)
        (noise.into_stateless_transport_mode t.state);
}

abbrev pub start : {S : Type 0} → S → Bool → Bytes → Talk S
start state is_writable stream = record {
  state = state;
  stream = stream;
  wire = [];
  plain = [];
  hello = none;
  is_writable = is_writable;
  failure = none;
}

abbrev pub refused : Bytes → HandshakeError → Handshake
refused stream e = record { wire = []; rest = stream; result = inl e }

-- The builder with `local_private_key`; there may be no private key to give it.
abbrev pub built : {S : Type 0} → Noise S → Role → Option Bytes → Option S
built noise role none = none
built noise initiator (some key) = noise.build_initiator key
built noise responder (some key) = noise.build_responder key

abbrev pub begin :
    {S : Type 0} → Noise S → InfoJson → Role → Option S → Option Bytes → Bool → Bytes → Handshake
begin noise serde role none payload is_writable stream = refused stream HandshakeError.crypto
begin noise serde role (some state) none is_writable stream = refused stream HandshakeError.json
begin noise serde role (some state) (some payload) is_writable stream =
    finish noise role (talk noise serde role payload (start state is_writable stream))

-- `identity.private_key()` is the argument `key`.
unfoldable pub run_handshake :
    {S : Type 0} → Noise S → InfoJson → Option Bytes → DeviceInfo → Role → Bool → Bytes → Handshake
run_handshake noise serde key hello role is_writable stream =
    begin noise serde role (built noise role key) (serde.to_vec hello) is_writable stream

-- `timeout` around the handshake: whether it came to its end within 12 seconds.
abbrev pub in_time : Bool → Handshake → HandshakeError ⊎ (HandshakeOutcome × Cipher)
in_time false h = inl timed_out
in_time true h = h.result

unfoldable pub dial :
    {S : Type 0}
    → Noise S
    → InfoJson
    → Option Bytes
    → DeviceInfo
    → Bool
    → Bool
    → Bytes
    → HandshakeError ⊎ (HandshakeOutcome × Cipher)
dial noise serde key hello is_early is_writable stream =
    in_time is_early (run_handshake noise serde key hello initiator is_writable stream)

unfoldable pub accept :
    {S : Type 0}
    → Noise S
    → InfoJson
    → Option Bytes
    → DeviceInfo
    → Bool
    → Bool
    → Bytes
    → HandshakeError ⊎ (HandshakeOutcome × Cipher)
accept noise serde key hello is_early is_writable stream =
    in_time is_early (run_handshake noise serde key hello responder is_writable stream)
