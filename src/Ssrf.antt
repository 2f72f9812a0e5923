-- ===== src/Ssrf.antt =====
-- utils/ssrfProtection.ts: addresses of private networks are refused. An IPv4 address is given by the
-- four numbers of its text (`split` and `parseInt`), and the answer of the name server is a
-- parameter. The checks on the text of the URL and the headers are not modelled.
pub mod Private
pub mod Tests
use velotradex.Base.{
  ℕ, ◌+◌, ◌*◌, ◌%◌, String, Bool, true, false, ◌&&◌, ◌||◌, Option, none, some, List, [], ◌∷◌,
  if◌then◌else◌, leb, find, Outcome, ok, throws,
}

pub record Ipv4 : Type 0 where
  pub a : ℕ
  pub b : ℕ
  pub c : ℕ
  pub d : ℕ

pub record AddressRange : Type 0 where
  pub start : ℕ
  pub end : ℕ

abbrev pub private_ranges : List AddressRange
private_ranges =
    record { start = 0x0A000000; end = 0x0AFFFFFF }
    ∷ record { start = 0xAC100000; end = 0xAC1FFFFF }
    ∷ record { start = 0xC0A80000; end = 0xC0A8FFFF }
    ∷ record { start = 0x7F000000; end = 0x7FFFFFFF }
    ∷ record { start = 0xA9FE0000; end = 0xA9FEFFFF }
    ∷ record { start = 0x00000000; end = 0x00FFFFFF }
    ∷ []

-- `(acc << 8) + part`, of which 32 bits count in the end
abbrev shift_in : ℕ → ℕ → ℕ
shift_in acc part = (acc * 256 + part) % 4294967296

unfoldable pub ipv4_to_int : Ipv4 → ℕ
ipv4_to_int ip = shift_in (shift_in (shift_in (shift_in 0 ip.a) ip.b) ip.c) ip.d

abbrev any_range : ℕ → List AddressRange → Bool
any_range num [] = false
any_range num (r ∷ rs) = (leb r.start num && leb num r.end) || any_range num rs

unfoldable pub is_private_ip : Ipv4 → Bool
is_private_ip ip = any_range (ipv4_to_int ip) private_ranges

abbrev pub refused_if_found : Option Ipv4 → Outcome (Unit {0})
refused_if_found none = ok tt
refused_if_found (some ip) = throws "SSRF check failed: host resolves to a private IP address"

-- the end of `assertSafeFetchUrl`, from the answer of the name server on
unfoldable pub check_resolved : Outcome (List Ipv4) → Outcome (Unit {0})
check_resolved (throws e) = throws "SSRF check failed: unable to resolve host"
check_resolved (ok []) = throws "SSRF check failed: host resolved to no addresses"
check_resolved (ok (ip ∷ ips)) = refused_if_found (find is_private_ip (ip ∷ ips))
