-- ===== src/Session/Handshake/Agreement.antt =====
-- Two machines that shake hands, each on the bytes that the other one writes.
use uniondesk.Common.{true, Option, none, some, [], ◌++◌, inr, ◌≡◌, refl, ◌∙◌, ap}
use uniondesk.Protocol.{DeviceInfo}
use uniondesk.Codec.{Bytes, write_record}
use uniondesk.Codec.Framing.{read_record-write_record}
use uniondesk.Session.{Cipher}
use uniondesk.Session.Wire.{append_assoc}
use uniondesk.Session.Handshake.{
  Noise, InfoJson, Talk, Role, initiator, responder, say, say_sealed, hear, hear_record,
  hear_opened, parse, parsed, talk, Handshake, finish, begin, built, start, run_handshake, put,
  is_initiator_of,
}

-- A handshake that has not failed, on a socket that takes bytes.
abbrev pub going : {S : Type 0} → S → Bytes → Bytes → Bytes → Option DeviceInfo → Talk S
going state stream wire plain hello = record {
  state = state;
  stream = stream;
  wire = wire;
  plain = plain;
  hello = hello;
  is_writable = true;
  failure = none;
}

-- A run of the pattern XX by the cipher, between two private keys: the states of both sides, the three messages, which are read for
-- what they were written for, and what both sides know at the end.
pub record Exchange {S : Type 0} (noise : Noise S) (public_key : Bytes → Bytes) : Type 0 where
  pub a0 : S
  pub a1 : S
  pub a2 : S
  pub a3 : S
  pub b0 : S
  pub b1 : S
  pub b2 : S
  pub b3 : S
  pub payload_i : Bytes
  pub payload_r : Bytes
  pub m1 : Bytes
  pub m2 : Bytes
  pub m3 : Bytes
  pub opened : Bytes
  pub private_i : Bytes
  pub private_r : Bytes
  pub cipher_i : Cipher
  pub cipher_r : Cipher
  pub builds_i : noise.build_initiator private_i ≡ some a0
  pub builds_r : noise.build_responder private_r ≡ some b0
  pub writes_1 : noise.write_message a0 [] ≡ some (a1, m1)
  pub reads_1 : noise.read_message b0 m1 ≡ some (b1, opened)
  pub writes_2 : noise.write_message b1 payload_r ≡ some (b2, m2)
  pub reads_2 : noise.read_message a1 m2 ≡ some (a2, payload_r)
  pub writes_3 : noise.write_message a2 payload_i ≡ some (a3, m3)
  pub reads_3 : noise.read_message b2 m3 ≡ some (b3, payload_i)
  pub presents_i : noise.get_remote_static a3 ≡ some (public_key private_r)
  pub presents_r : noise.get_remote_static b3 ≡ some (public_key private_i)
  pub keys_i : noise.into_stateless_transport_mode a3 ≡ some cipher_i
  pub keys_r : noise.into_stateless_transport_mode b3 ≡ some cipher_r

says :
    {S : Type 0} (noise : Noise S) (s s' : S) (stream wire plain payload message bytes : Bytes)
    (hello : Option DeviceInfo)
    → noise.write_message s payload ≡ some (s', message)
    → write_record message ≡ inr bytes
    → say noise payload (going s stream wire plain hello)
      ≡ going s' stream (wire ++ bytes) plain hello
unfolding say
says noise s s' stream wire plain payload message bytes hello sealed framed =
    ap (λ o. say_sealed o (going s stream wire plain hello)) sealed
    ∙ ap (λ o. put o (going s' stream wire plain hello)) framed

hears :
    {S : Type 0} (noise : Noise S) (s s' : S) (rest wire plain payload message bytes : Bytes)
    (hello : Option DeviceInfo)
    → noise.read_message s message ≡ some (s', payload)
    → write_record message ≡ inr bytes
    → hear noise (going s (bytes ++ rest) wire plain hello) ≡ going s' rest wire payload hello
unfolding hear
hears noise s s' rest wire plain payload message bytes hello opened framed =
    ap (λ o. hear_record noise o (going s (bytes ++ rest) wire plain hello))
      (read_record-write_record message rest bytes framed)
    ∙ ap (λ o. hear_opened o (going s rest wire plain hello)) opened

parses :
    {S : Type 0} (serde : InfoJson) (s : S) (rest wire plain : Bytes) (d : DeviceInfo)
    → serde.from_slice plain ≡ some d
    → parse serde (going s rest wire plain none) ≡ going s rest wire plain (some d)
unfolding parse
parses serde s rest wire plain d e = ap (λ o. parsed o (going s rest wire plain none)) e

-- What a completed handshake leaves.
abbrev pub completed : Role → Bytes → Bytes → Bytes → DeviceInfo → Cipher → Handshake
completed role wire rest key hello cipher = record {
  wire = wire;
  rest = rest;
  result =
      inr (
        record { remote_static = key; hello = hello; is_initiator = is_initiator_of role },
        cipher,
      );
}

finishes :
    {S : Type 0} (noise : Noise S) (role : Role) (s : S) (rest wire plain key : Bytes)
    (d : DeviceInfo) (cipher : Cipher)
    → noise.get_remote_static s ≡ some key
    → noise.into_stateless_transport_mode s ≡ some cipher
    → finish noise role (going s rest wire plain (some d)) ≡ completed role wire rest key d cipher
finishes noise role s rest wire plain key d cipher presents keys = rw (presents, keys) refl

initiates :
    {S : Type 0} (noise : Noise S) (serde : InfoJson) (public_key : Bytes → Bytes)
    (x : Exchange noise public_key) (d : DeviceInfo) (w1 w2 w3 rest : Bytes)
    → serde.from_slice x.payload_r ≡ some d
    → write_record x.m1 ≡ inr w1
    → write_record x.m2 ≡ inr w2
    → write_record x.m3 ≡ inr w3
    → talk noise serde initiator x.payload_i (start x.a0 true (w2 ++ rest))
      ≡ going x.a3 rest (w1 ++ w3) x.payload_r (some d)
initiates noise serde public_key x d w1 w2 w3 rest back e1 e2 e3 =
    ap (λ t. say noise x.payload_i (parse serde (hear noise t)))
      (says noise x.a0 x.a1 (w2 ++ rest) [] [] [] x.m1 w1 none x.writes_1 e1)
    ∙ (ap (λ t. say noise x.payload_i (parse serde t))
          (hears noise x.a1 x.a2 rest w1 [] x.payload_r x.m2 w2 none x.reads_2 e2)
        ∙ (ap (say noise x.payload_i) (parses serde x.a2 rest w1 x.payload_r d back)
            ∙ says noise x.a2 x.a3 rest w1 x.payload_r x.payload_i x.m3 w3 (some d) x.writes_3 e3))

responds :
    {S : Type 0} (noise : Noise S) (serde : InfoJson) (public_key : Bytes → Bytes)
    (x : Exchange noise public_key) (d : DeviceInfo) (w1 w2 w3 rest : Bytes)
    → serde.from_slice x.payload_i ≡ some d
    → write_record x.m1 ≡ inr w1
    → write_record x.m2 ≡ inr w2
    → write_record x.m3 ≡ inr w3
    → talk noise serde responder x.payload_r (start x.b0 true (w1 ++ (w3 ++ rest)))
      ≡ going x.b3 rest w2 x.payload_i (some d)
responds noise serde public_key x d w1 w2 w3 rest back e1 e2 e3 =
    ap (λ t. parse serde (hear noise (say noise x.payload_r t)))
      (hears noise x.b0 x.b1 (w3 ++ rest) [] [] x.opened x.m1 w1 none x.reads_1 e1)
    ∙ (ap (λ t. parse serde (hear noise t))
          (says noise x.b1 x.b2 (w3 ++ rest) [] x.opened x.payload_r x.m2 w2 none x.writes_2 e2)
        ∙ (ap (parse serde)
              (hears noise x.b2 x.b3 rest w2 x.opened x.payload_i x.m3 w3 none x.reads_3 e3)
            ∙ parses serde x.b3 rest w2 x.payload_i d back))

begins :
    {S : Type 0} (noise : Noise S) (serde : InfoJson) (role : Role) (key : Option Bytes)
    (hello : DeviceInfo) (s : S) (payload stream : Bytes)
    → built noise role key ≡ some s
    → serde.to_vec hello ≡ some payload
    → run_handshake noise serde key hello role true stream
      ≡ finish noise role (talk noise serde role payload (start s true stream))
unfolding run_handshake
begins noise serde role key hello s payload stream builds e =
    ap (λ o. begin noise serde role o (serde.to_vec hello) true stream) builds
    ∙ ap (λ o. begin noise serde role (some s) o true stream) e

-- Two machines, each with its private key, whose cipher completes an exchange of the pattern XX and presents
-- to each the public key of the private key that the other one was built with, whose messages fit a
-- record and whose JSON is read back: each, on exactly the bytes that the other one writes and whatever
-- follows them, completes its handshake, with the other's hello, that public key and its own role, and
-- leaves unread exactly what follows.
pub run_handshake-agrees :
    {S : Type 0} (noise : Noise S) (serde : InfoJson) (public_key : Bytes → Bytes)
    (x : Exchange noise public_key) (hello_i hello_r : DeviceInfo) (w1 w2 w3 rest_i rest_r : Bytes)
    → serde.to_vec hello_i ≡ some x.payload_i
    → serde.to_vec hello_r ≡ some x.payload_r
    → serde.from_slice x.payload_i ≡ some hello_i
    → serde.from_slice x.payload_r ≡ some hello_r
    → write_record x.m1 ≡ inr w1
    → write_record x.m2 ≡ inr w2
    → write_record x.m3 ≡ inr w3
    → (run_handshake noise serde (some x.private_i) hello_i initiator true (w2 ++ rest_i)
        ≡ completed initiator (w1 ++ w3) rest_i (public_key x.private_r) hello_r x.cipher_i)
      × (run_handshake noise serde (some x.private_r) hello_r responder true ((w1 ++ w3) ++ rest_r)
          ≡ completed responder w2 rest_r (public_key x.private_i) hello_i x.cipher_r)
run_handshake-agrees noise serde public_key x hello_i hello_r w1 w2 w3 rest_i rest_r to_i to_r
      from_i from_r e1 e2 e3 =
    (
      begins noise serde initiator (some x.private_i) hello_i x.a0 x.payload_i (w2 ++ rest_i)
            x.builds_i to_i
          ∙ (ap (finish noise initiator)
                (initiates noise serde public_key x hello_r w1 w2 w3 rest_i from_r e1 e2 e3)
              ∙ finishes noise initiator x.a3 rest_i (w1 ++ w3) x.payload_r (public_key x.private_r)
                  hello_r x.cipher_i x.presents_i x.keys_i),
      ap (run_handshake noise serde (some x.private_r) hello_r responder true)
            (append_assoc w1 w3 rest_r)
          ∙ (begins noise serde responder (some x.private_r) hello_r x.b0 x.payload_r
                (w1 ++ (w3 ++ rest_r)) x.builds_r to_r
              ∙ (ap (finish noise responder)
                    (responds noise serde public_key x hello_i w1 w2 w3 rest_r from_i e1 e2 e3)
                  ∙ finishes noise responder x.b3 rest_r w2 x.payload_i (public_key x.private_i)
                      hello_i x.cipher_r x.presents_r x.keys_r)),
    )
