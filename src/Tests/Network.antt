-- ===== src/Tests/Network.antt =====
-- The theorems on discovery, at machines 1 and 2, and at a service that is resolved twice.
use uniondesk.Common.{List, ◌<◌, ◌+◌, Bool, true, false, some, [], ◌∷◌, ◌≡◌, refl, arith}
use uniondesk.Common.Dict.{Dict}
use uniondesk.Config.{OsKind}
use uniondesk.Discovery.{IpAddr, SocketAddr}
use uniondesk.Discovery.Beacon.{Advertise, BeaconJson, our_beacon, hear, beacon_of}
use uniondesk.Discovery.Beacon.Heard.{expected, hear-our_beacon}
use uniondesk.Discovery.Multicast.{Service, Seen, useful_addresses, sort_dedup}
use uniondesk.Discovery.Multicast.Refresh.{Resolution, resolve_all, resolve_all-silent}

abbrev here : Advertise
here = record {
  device_id = 1;
  name = "here";
  os = OsKind.linux;
  port = 47800;
  fingerprint = "one";
  enabled = true;
}

abbrev there : Advertise
there = record {
  device_id = 2;
  name = "there";
  os = OsKind.macos;
  port = 0;
  fingerprint = "two";
  enabled = true;
}

-- Every beacon is written as a 7, which is read as the question of machine 2.
abbrev one_byte : BeaconJson
one_byte = record {
  to_vec = λ b. some (7 ∷ []);
  from_slice = λ bytes. some (beacon_of there true false);
}

abbrev address : IpAddr
address = record { is_ipv4 = true; bits = 3232235522 }

abbrev sender : SocketAddr
sender = record { ip = address; port = 47824 }

sends_seven : our_beacon one_byte there true false ≡ some (7 ∷ [])
unfolding our_beacon
sends_seven = refl

hear-our_beacon_example :
    hear one_byte here 100 sender (7 ∷ []) ≡ expected one_byte here there 100 sender true false
hear-our_beacon_example =
    hear-our_beacon one_byte here there 100 sender true false (7 ∷ []) (λ json written. refl) refl
      sends_seven

abbrev service : Service
service = record {
  id = some 2;
  name = some "there";
  fullname = "there._uniondesk._tcp.local.";
  os = some "macos";
  fingerprint = some "two";
  addresses = address ∷ [];
  port = 47823;
}

abbrev no_loopback : IpAddr → Bool
no_loopback a = false

abbrev remembered : Dict Seen
remembered = (2, record { addresses = address ∷ []; name = "there"; at_ms = 0 }) ∷ []

one_useful : useful_addresses no_loopback (address ∷ []) ≡ address ∷ []
unfolding useful_addresses sort_dedup
one_useful = refl

soon : 1000 < 0 + 300000
soon = omega arith

later : 200000 < 0 + 300000
later = omega arith

-- The second time the service shows another port.
abbrev twice : List Resolution
twice =
    record { now = 1000; unix = 1; info = service }
    ∷ record { now = 200000; unix = 200; info = record service { port = 5 } }
    ∷ []

resolve_all-silent_example : resolve_all no_loopback twice remembered ≡ (remembered, [])
resolve_all-silent_example =
    resolve_all-silent no_loopback twice 2 0 "there" address [] remembered refl (
      record { same_id = refl; same_name = refl; same_addresses = one_useful; is_soon = soon },
      (
        record { same_id = refl; same_name = refl; same_addresses = one_useful; is_soon = later },
        _,
      ),
    )
