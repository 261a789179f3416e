-- ===== src/Discovery/Multicast/Refresh.antt =====
-- How long a machine that multicast DNS sees again and again stays in the table.
use uniondesk.Common.{
  ℕ, ◌+◌, ◌-◌, ◌<◌, Bool, true, false, ◌&&◌, Option, some, List, [], ◌∷◌, ◌++◌, All, String, ltb,
  ◌==◌, ==_refl, lt→ltb, ◌≡◌, sym, refl, ◌∙◌, ap, arith, if◌then◌else◌,
}
use text.Mathlib.Text.{◌==◌ as str_eq}
use text.Mathlib.TextEquality.{eq_iff}
use uniondesk.Engine.Dispatch.{DiscoveryEvent}
use uniondesk.Common.Dict.{Dict, lookup}
use uniondesk.Config.{DeviceId}
use uniondesk.Discovery.{Discovered, IpAddr, bool_eq}
use uniondesk.Discovery.Beacon.{parse_os}
use uniondesk.Discovery.Multicast.{
  Service, Seen, Passed, resolved, resolve_id, resolve_at, is_skipped, found_of, useful_addresses,
  same_ips, same_ip, pass, or_default,
}

-- One resolution: the time in milliseconds and in seconds, and what the library tells of the service then.
pub record Resolution : Type 0 where
  pub now : ℕ
  pub unix : ℕ
  pub info : Service

-- Several resolutions, one after the other.
abbrev pub resolve_all :
    (IpAddr → Bool) → List Resolution → Dict Seen → Dict Seen × List DiscoveryEvent
resolve_all is_loopback [] seen = (seen, [])
resolve_all is_loopback (r ∷ resolutions) seen =
    let p = resolved is_loopback r.now r.unix r.info seen in
    let (last, more) = resolve_all is_loopback resolutions p.seen in (last, p.events ++ more)

-- A resolution of the machine `id` under that name and with those useful addresses, less than five
-- minutes after `at_ms`. Its port, its fingerprint, its system and its other addresses may be any.
pub record IsRepeat (is_loopback : IpAddr → Bool) (id : DeviceId) (name : String)
    (addresses : List IpAddr) (at_ms : ℕ) (r : Resolution) : Type 0 where
  pub same_id : r.info.id ≡ some id
  pub same_name : or_default r.info.name r.info.fullname ≡ name
  pub same_addresses : useful_addresses is_loopback r.info.addresses ≡ addresses
  pub is_soon : r.now < at_ms + 300000

same_ip_refl : (a : IpAddr) → same_ip a a ≡ true
same_ip_refl a = go a.is_ipv4 a.bits
  where
    go : (b : Bool) (n : ℕ) → (bool_eq b b && n == n) ≡ true
    go true n = ==_refl n
    go false n = ==_refl n

same_ips_refl : (addresses : List IpAddr) → same_ips addresses addresses ≡ true
same_ips_refl [] = refl
same_ips_refl (a ∷ rest) = rw (same_ip_refl a, same_ips_refl rest) refl

str_eq_refl : (t : String) → str_eq t t ≡ true
str_eq_refl t = (eq_iff t t).1 refl

-- The same service with the same addresses is skipped within five minutes.
skips :
    (now unix id at_ms : ℕ) (info : Service) (addresses : List IpAddr)
    → now < at_ms + 300000
    → is_skipped now
        (some (record {
          addresses = addresses;
          name = or_default info.name info.fullname;
          at_ms = at_ms;
        }))
        (found_of unix id info addresses)
      ≡ true
unfolding parse_os
skips now unix id at_ms info addresses early =
    let recent : ltb (now - at_ms) 300000 ≡ true = lt→ltb (now - at_ms) 300000 (omega arith) in
    rw (same_ips_refl addresses, str_eq_refl (or_default info.name info.fullname), recent) refl

silent_once :
    (is_loopback : IpAddr → Bool) (now unix id at_ms : ℕ) (info : Service) (a : IpAddr)
    (rest : List IpAddr) (seen : Dict Seen)
    → info.id ≡ some id
    → useful_addresses is_loopback info.addresses ≡ a ∷ rest
    → lookup id seen
      ≡ some (record {
        addresses = a ∷ rest;
        name = or_default info.name info.fullname;
        at_ms = at_ms;
      })
    → now < at_ms + 300000
    → resolved is_loopback now unix info seen ≡ record { seen = seen; events = [] }
unfolding resolved
silent_once is_loopback now unix id at_ms info a rest seen named useful known early =
    ap (λ o. resolve_id is_loopback now unix o info seen) named
    ∙ (ap (λ l. resolve_at now unix id info l seen) useful
        ∙ (ap (λ o. skip_or_pass o) known
            ∙ ap (λ b. if b then record { seen = seen; events = [] } else pass now d seen)
                (skips now unix id at_ms info (a ∷ rest) early)))
  where
    d : Discovered
    d = found_of unix id info (a ∷ rest)

    skip_or_pass : Option Seen → Passed
    skip_or_pass o =
        if is_skipped now o d then record { seen = seen; events = [] } else pass now d seen

-- Once a machine has been passed on, with some useful address, no number of resolutions within the next five
-- minutes that show it with the same name and the same useful addresses is passed on by the loop, nor
-- changes what the loop remembers, whatever has become of its port, its fingerprint or its system.
pub resolve_all-silent :
    (is_loopback : IpAddr → Bool) (resolutions : List Resolution) (id at_ms : ℕ) (name : String)
    (a : IpAddr) (rest : List IpAddr) (seen : Dict Seen)
    → lookup id seen ≡ some (record { addresses = a ∷ rest; name = name; at_ms = at_ms })
    → All (IsRepeat is_loopback id name (a ∷ rest) at_ms) resolutions
    → resolve_all is_loopback resolutions seen ≡ (seen, [])
resolve_all-silent is_loopback [] id at_ms name a rest seen known same = refl
resolve_all-silent is_loopback (r ∷ resolutions) id at_ms name a rest seen known (e, same) =
    let named : lookup id seen
        ≡ some (record {
          addresses = a ∷ rest;
          name = or_default r.info.name r.info.fullname;
          at_ms = at_ms;
        }) =
      known
      ∙ ap (λ n. some (record { addresses = a ∷ rest; name = n; at_ms = at_ms }))
          (sym e.same_name) in
    let once =
      silent_once is_loopback r.now r.unix id at_ms r.info a rest seen e.same_id e.same_addresses
        named e.is_soon in
    let later = resolve_all-silent is_loopback resolutions id at_ms name a rest seen known same in
    ap
      (λ p. (
        (resolve_all is_loopback resolutions p.seen).0,
        p.events ++ (resolve_all is_loopback resolutions p.seen).1,
      ))
      once
    ∙ later
