-- ===== src/Outbound/Laws.antt =====
-- When a URL is let through.
use backend_foundation.Prelude.{
  ◌≡◌, ◌↔◌, refl, ◌∙◌, ap, true, false, Bool-cases, inl, inr, Option, none, some, List, [], ◌∷◌,
  All, find, is_some, String,
}
use backend_foundation.Outbound.Addresses.{
  Bytes, NoneRefused, AllPass, pass-NoneRefused, NoneRefused-pass,
}
use backend_foundation.Outbound.{
  Ip, is_private_or_reserved_ip, ParsedUrl, Network, is_blocked_host, is_allowed_protocol, safe,
  check_addresses, check_host, check_url, assert_safe_outbound_url,
}

-- The addresses that a URL leads to: its own, or those of its name, of which there is one at least.
pub data LeadsTo {R : Type 0} (network : Network R) (u : ParsedUrl) : List Ip → Type 0 where
  own_address : (a : Ip) → u.ip ≡ some a → LeadsTo network u (a ∷ [])
  looked_up :
      (a : Ip) (rest : List Ip)
      → u.ip ≡ none
      → network.lookup u.hostname ≡ some (a ∷ rest)
      → LeadsTo network u (a ∷ rest)

pub record Admissible {R : Type 0} (network : Network R) (raw : R) : Type 0 where
  pub url : ParsedUrl
  pub parsed : network.parse raw ≡ some url
  pub protocol : is_allowed_protocol url.protocol ≡ true
  pub host : is_blocked_host url.hostname ≡ false
  pub addresses : List Ip
  pub leads : LeadsTo network url addresses
  pub outside : NoneRefused addresses

find-AllPass : (ips : List Ip) → is_some (find is_private_or_reserved_ip ips) ≡ false → AllPass ips
find-AllPass [] e = tt
find-AllPass (a ∷ rest) e = elim (Bool-cases (is_private_or_reserved_ip a)) [
  | inl p ↦ absurd (cc (rw p at e))
  | inr p ↦ (p, find-AllPass rest (rw p at e))
]

AllPass-find : (ips : List Ip) → AllPass ips → is_some (find is_private_or_reserved_ip ips) ≡ false
AllPass-find [] all = refl
AllPass-find (a ∷ rest) all = rw all.0 (AllPass-find rest all.1)

-- What `isIP` and the lookup of names answer are addresses, whose numbers are bytes.
pub record GivesBytes {R : Type 0} (network : Network R) : Type 0 where
  pub own :
      (raw : R) (u : ParsedUrl) (a : Ip) → network.parse raw ≡ some u → u.ip ≡ some a → Bytes a
  pub of_name : (host : String) (ips : List Ip) → network.lookup host ≡ some ips → All Bytes ips

module _ {R : Type 0} (network : Network R) (gives : GivesBytes network) where
  led-Bytes :
      (raw : R) (u : ParsedUrl) (ips : List Ip)
      → network.parse raw ≡ some u
      → LeadsTo network u ips
      → All Bytes ips
  led-Bytes raw u ips parsed (own_address a e) = (gives.own raw u a parsed e, tt)
  led-Bytes raw u ips parsed (looked_up a rest n e) = gives.of_name u.hostname (a ∷ rest) e

  abbrev Led : ParsedUrl → Type 0
  Led u = (ips : List Ip) × LeadsTo network u ips × AllPass ips

  lookup-safe :
      (u : ParsedUrl) (o : Option (List Ip))
      → u.ip ≡ none
      → network.lookup u.hostname ≡ o
      → check_addresses o ≡ safe
      → Led u
  lookup-safe u none n e h = cc
  lookup-safe u (some []) n e h = cc
  lookup-safe u (some (a ∷ rest)) n e h =
      elim (Bool-cases (is_some (find is_private_or_reserved_ip (a ∷ rest)))) [
        | inl p ↦ absurd (cc (rw p at h))
        | inr p ↦ (a ∷ rest, looked_up a rest n e, find-AllPass (a ∷ rest) p)
      ]

  host-safe :
      (u : ParsedUrl) (o : Option Ip) → u.ip ≡ o → check_host network u.hostname o ≡ safe → Led u
  host-safe u none e h = lookup-safe u (network.lookup u.hostname) e refl h
  host-safe u (some a) e h = elim (Bool-cases (is_private_or_reserved_ip a)) [
    | inl p ↦ absurd (cc (rw p at h))
    | inr p ↦ (a ∷ [], own_address a e, (p, tt))
  ]

  url-safe :
      (raw : R) (o : Option ParsedUrl)
      → network.parse raw ≡ o
      → check_url network o ≡ safe
      → Admissible network raw
  url-safe raw none e h = cc
  url-safe raw (some u) e h = elim (Bool-cases (is_allowed_protocol u.protocol)) [
    | inr bad ↦ absurd (cc (rw bad at h))
    | inl good ↦ elim (Bool-cases (is_blocked_host u.hostname)) [
      | inl blocked ↦ absurd (cc (rw (good, blocked) at h))
      | inr free ↦
          let (ips, leads, all) = host-safe u u.ip refl (rw (good, free) at h) in
          record {
            url = u;
            parsed = e;
            protocol = good;
            host = free;
            addresses = ips;
            leads = leads;
            outside = pass-NoneRefused ips (led-Bytes raw u ips e leads) all;
          }
    ]
  ]

  leads-safe :
      (u : ParsedUrl) (ips : List Ip)
      → LeadsTo network u ips
      → AllPass ips
      → check_host network u.hostname u.ip ≡ safe
  leads-safe u ips (own_address a e) all = rw e (rw all.0 refl)
  leads-safe u ips (looked_up a rest n e) all = rw n (rw e (rw (AllPass-find (a ∷ rest) all) refl))

-- A URL is let through exactly where it can be parsed, its protocol is http or https, its host is not
-- a blocked name, and it leads to an address at least (its own, if its host is an address, or else all
-- those that its name is resolved to), none of which is refused: not one of the eight blocks of IPv4
-- from 127.0.0.0/8 to 240.0.0.0/4, also mapped into IPv6, nor ::1, ::, fc00::/7 or fe80::/10, nor a
-- text that is no address. Other reserved blocks, such as 100.64.0.0/10, are not refused. The
-- parser and the resolver are taken to give addresses whose numbers are bytes.
pub safe_url :
    {R : Type 0} (network : Network R)
    → GivesBytes network
    → (raw : R) → (assert_safe_outbound_url network raw ≡ safe) ↔ Admissible network raw
unfolding assert_safe_outbound_url
safe_url network gives raw = (
  λ h. url-safe network gives raw (network.parse raw) refl h,
  λ a.
      let pass =
        NoneRefused-pass a.addresses
          (led-Bytes network gives raw a.url a.addresses a.parsed a.leads) a.outside in
      ap (check_url network) a.parsed
      ∙ rw (a.protocol, a.host) (leads-safe network gives a.url a.addresses a.leads pass),
)
