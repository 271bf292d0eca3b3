-- ===== src/Outbound.antt =====
-- src/shared/security/ssrf-guard.ts: which URLs the program itself may call. `new URL`, `isIP` and the
-- lookup of a name are arguments; an address is what the code makes of its text.
use backend_foundation.Prelude.{
  ℕ, ◌*◌, ◌/◌, ◌==◌, ◌&&◌, ◌||◌, leb, String, Bool, true, false, not, Option, none, some, List, [],
  ◌∷◌, find, is_some, if◌then◌else◌,
}
use backend_foundation.UserAgent.{codes}
pub mod Blocks
pub mod Addresses
pub mod Laws
mod Tests

-- `ip.split('.').map(Number)`: four numbers, or anything else.
pub data Ipv4Text : Type 0 where
  dotted : ℕ → ℕ → ℕ → ℕ → Ipv4Text
  unrecognised : Ipv4Text

-- An IPv6 text is `::1`, `::`, `::ffff:` and a rest, or another, with its first group as a number.
pub data Ip : Type 0 where
  v4 : Ipv4Text → Ip
  loopback unspecified : Ip
  mapped : Ipv4Text → Ip
  other_v6 : ℕ → Ip

unfoldable pub is_private_or_reserved_ipv4 : Ipv4Text → Bool
is_private_or_reserved_ipv4 unrecognised = true
is_private_or_reserved_ipv4 (dotted a b c d) =
    (a == 127)
    || ((a == 10)
        || (((a == 172) && (leb 16 b && leb b 31))
            || (((a == 192) && (b == 168))
                || (((a == 169) && (b == 254)) || ((a == 0) || leb 224 a)))))

-- The masks 0xfe00 and 0xffc0 of sixteen bits clear the last nine and the last six.
unfoldable pub is_private_or_reserved_ip : Ip → Bool
unfolding is_private_or_reserved_ipv4
is_private_or_reserved_ip (v4 text) = is_private_or_reserved_ipv4 text
is_private_or_reserved_ip loopback = true
is_private_or_reserved_ip unspecified = true
is_private_or_reserved_ip (mapped text) = is_private_or_reserved_ipv4 text
is_private_or_reserved_ip (other_v6 group) =
    (group / 512 * 512 == 64512) || (group / 64 * 64 == 65152)

-- `new URL(rawUrl)`, with the host name in lower case, and its address where it is one.
pub record ParsedUrl : Type 0 where
  pub protocol : String
  pub hostname : String
  pub ip : Option Ip

pub record Network (R : Type 0) : Type 0 where
  pub parse : R → Option ParsedUrl
  pub lookup : String → Option (List Ip)

abbrev pub same_codes : List ℕ → List ℕ → Bool
same_codes [] [] = true
same_codes [] (d ∷ ds) = false
same_codes (c ∷ cs) [] = false
same_codes (c ∷ cs) (d ∷ ds) = (c == d) && same_codes cs ds

abbrev pub ends_with : List ℕ → List ℕ → Bool
ends_with suffix [] = same_codes suffix []
ends_with suffix (c ∷ cs) = same_codes suffix (c ∷ cs) || ends_with suffix cs

abbrev pub has_suffix : List String → String → Bool
has_suffix [] host = false
has_suffix (s ∷ rest) host = ends_with (codes s) (codes host) || has_suffix rest host

abbrev pub blocked_hostname_suffixes : List String
blocked_hostname_suffixes = ".local" ∷ ".internal" ∷ ".localhost" ∷ []

unfoldable pub is_blocked_host : String → Bool
is_blocked_host host =
    same_codes (codes "localhost") (codes host) || has_suffix blocked_hostname_suffixes host

unfoldable pub is_allowed_protocol : String → Bool
is_allowed_protocol p =
    same_codes (codes "http:") (codes p) || same_codes (codes "https:") (codes p)

pub data Verdict : Type 0 where
  safe : Verdict
  url_invalid protocol_refused host_refused ip_refused not_resolved : Verdict

-- Every address that the name leads to counts.
abbrev pub check_addresses : Option (List Ip) → Verdict
check_addresses none = not_resolved
check_addresses (some []) = ip_refused
check_addresses (some (a ∷ rest)) =
    if is_some (find is_private_or_reserved_ip (a ∷ rest)) then ip_refused else safe

abbrev pub check_host : {R : Type 0} → Network R → String → Option Ip → Verdict
check_host network host (some ip) = if is_private_or_reserved_ip ip then ip_refused else safe
check_host network host none = check_addresses (network.lookup host)

abbrev pub check_url : {R : Type 0} → Network R → Option ParsedUrl → Verdict
check_url network none = url_invalid
check_url network (some u) =
    if not (is_allowed_protocol u.protocol)
    then protocol_refused
    else if is_blocked_host u.hostname
    then host_refused
    else check_host network u.hostname u.ip

unfoldable pub assert_safe_outbound_url : {R : Type 0} → Network R → R → Verdict
unfolding is_private_or_reserved_ip is_blocked_host is_allowed_protocol
assert_safe_outbound_url network raw = check_url network (network.parse raw)
