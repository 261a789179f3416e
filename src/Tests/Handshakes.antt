-- ===== src/Tests/Handshakes.antt =====
-- A handshake of machines 1 and 2, with a cipher that counts the messages and a JSON of one byte.
use uniondesk.Common.{ℕ, ◌+◌, true, Option, none, some, [], ◌∷◌, inr, ◌≡◌, refl}
use uniondesk.Config.{OsKind}
use uniondesk.Protocol.{DeviceInfo}
use uniondesk.Protocol.Chunk.{to_le_bytes}
use uniondesk.Codec.{Bytes, write_record}
use uniondesk.Session.{Cipher}
use uniondesk.Session.Handshake.{Noise, InfoJson, initiator, responder, run_handshake}
use uniondesk.Session.Handshake.Agreement.{Exchange, completed, run_handshake-agrees}

abbrev machine : ℕ → DeviceInfo
machine n = record {
  device_id = n;
  name = "desk";
  os = OsKind.linux;
  version = "1";
  fingerprint = "ab";
  displays = [];
}

abbrev plain : Cipher
plain = record { write_message = λ n p. some p; read_message = λ n p. some p }

-- The private keys are 3 and 13.
abbrev public_of : Bytes → Bytes
public_of key = 5 ∷ key

abbrev counting : Noise ℕ
counting = record {
  build_initiator = λ key. some 0;
  build_responder = λ key. some 10;
  write_message = λ s p. some (s + 1, p);
  read_message = λ s p. some (s + 1, p);
  get_remote_static = λ s. some (public_of (s ∷ []));
  into_stateless_transport_mode = λ s. some plain;
}

abbrev read_machine : Bytes → Option DeviceInfo
read_machine [] = none
read_machine (n ∷ rest) = some (machine n)

abbrev one_byte : InfoJson
one_byte = record { to_vec = λ d. some (d.device_id ∷ []); from_slice = read_machine }

abbrev exchange : Exchange counting public_of
exchange = record {
  a0 = 0;
  a1 = 1;
  a2 = 2;
  a3 = 3;
  b0 = 10;
  b1 = 11;
  b2 = 12;
  b3 = 13;
  payload_i = 1 ∷ [];
  payload_r = 2 ∷ [];
  m1 = [];
  m2 = 2 ∷ [];
  m3 = 1 ∷ [];
  opened = [];
  private_i = 13 ∷ [];
  private_r = 3 ∷ [];
  cipher_i = plain;
  cipher_r = plain;
  builds_i = refl;
  builds_r = refl;
  writes_1 = refl;
  reads_1 = refl;
  writes_2 = refl;
  reads_2 = refl;
  writes_3 = refl;
  reads_3 = refl;
  presents_i = refl;
  presents_r = refl;
  keys_i = refl;
  keys_r = refl;
}

first : write_record [] ≡ inr (0 ∷ 0 ∷ 0 ∷ 0 ∷ [])
unfolding write_record to_le_bytes
first = refl

second : write_record (2 ∷ []) ≡ inr (1 ∷ 0 ∷ 0 ∷ 0 ∷ 2 ∷ [])
unfolding write_record to_le_bytes
second = refl

third : write_record (1 ∷ []) ≡ inr (1 ∷ 0 ∷ 0 ∷ 0 ∷ 1 ∷ [])
unfolding write_record to_le_bytes
third = refl

run_handshake-agrees_example :
    (run_handshake counting one_byte
        (some (13 ∷ []))
        (machine 1)
        initiator
        true
        (1 ∷ 0 ∷ 0 ∷ 0 ∷ 2 ∷ 8 ∷ [])
      ≡ completed initiator
          (0 ∷ 0 ∷ 0 ∷ 0 ∷ 1 ∷ 0 ∷ 0 ∷ 0 ∷ 1 ∷ [])
          (8 ∷ [])
          (5 ∷ 3 ∷ [])
          (machine 2)
          plain)
    × (run_handshake counting one_byte
          (some (3 ∷ []))
          (machine 2)
          responder
          true
          (0 ∷ 0 ∷ 0 ∷ 0 ∷ 1 ∷ 0 ∷ 0 ∷ 0 ∷ 1 ∷ 9 ∷ [])
        ≡ completed responder (1 ∷ 0 ∷ 0 ∷ 0 ∷ 2 ∷ []) (9 ∷ []) (5 ∷ 13 ∷ []) (machine 1) plain)
run_handshake-agrees_example =
    run_handshake-agrees counting one_byte public_of exchange (machine 1) (machine 2)
      (0 ∷ 0 ∷ 0 ∷ 0 ∷ []) (1 ∷ 0 ∷ 0 ∷ 0 ∷ 2 ∷ []) (1 ∷ 0 ∷ 0 ∷ 0 ∷ 1 ∷ []) (8 ∷ []) (9 ∷ []) refl
      refl refl refl first second third
