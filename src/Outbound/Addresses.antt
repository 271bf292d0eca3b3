-- ===== src/Outbound/Addresses.antt =====
-- The addresses that are refused, described by the blocks of the two address spaces.
use backend_foundation.Prelude.{
  ◌*◌, ◌/◌, ◌<◌, ◌≤◌, ◌==◌, ◌≡◌, ◌⊎◌, refl, sym, ◌∙◌, inl, inr, true, false, List, [], ◌∷◌, All,
  arith, Bool-cases,
}
use backend_foundation.Outbound.{
  Ipv4Text, dotted, unrecognised, Ip, v4, loopback, unspecified, mapped, other_v6,
  is_private_or_reserved_ipv4, is_private_or_reserved_ip,
}
use backend_foundation.Outbound.Blocks.{in_refused_block, address_of, refused_blocks}

-- The four numbers of an address that `isIP` knows are bytes.
abbrev pub BytesV4 : Ipv4Text → Type 0
BytesV4 unrecognised = Unit
BytesV4 (dotted a b c d) = (a < 256) × (b < 256) × (c < 256) × (d < 256)

abbrev pub Bytes : Ip → Type 0
Bytes (v4 text) = BytesV4 text
Bytes loopback = Unit
Bytes unspecified = Unit
Bytes (mapped text) = BytesV4 text
Bytes (other_v6 group) = Unit

abbrev pub RefusedV4 : Ipv4Text → Type 0
RefusedV4 unrecognised = Unit
RefusedV4 (dotted a b c d) = in_refused_block (address_of a b c d) ≡ true

-- A text that is no IPv4 address; one of the eight blocks of IPv4, also where it is mapped into
-- IPv6; ::1 and ::; fc00::/7, the first groups fc00 to fdff; fe80::/10, the first groups fe80 to febf.
abbrev pub RefusedAddress : Ip → Type 0
RefusedAddress (v4 text) = RefusedV4 text
RefusedAddress loopback = Unit
RefusedAddress unspecified = Unit
RefusedAddress (mapped text) = RefusedV4 text
RefusedAddress (other_v6 group) =
    ((0xfc00 ≤ group) × (group ≤ 0xfdff)) ⊎ ((0xfe80 ≤ group) × (group ≤ 0xfebf))

refused-v4 :
    (text : Ipv4Text) → BytesV4 text → is_private_or_reserved_ipv4 text ≡ true → RefusedV4 text
unfolding is_private_or_reserved_ipv4
refused-v4 unrecognised bytes h = tt
refused-v4 (dotted a b c d) (ha, hb, hc, hd) h = sym (refused_blocks a b c d ha hb hc hd) ∙ h

v4-refused :
    (text : Ipv4Text) → BytesV4 text → RefusedV4 text → is_private_or_reserved_ipv4 text ≡ true
unfolding is_private_or_reserved_ipv4
v4-refused unrecognised bytes h = refl
v4-refused (dotted a b c d) (ha, hb, hc, hd) h = refused_blocks a b c d ha hb hc hd ∙ h

pub refused-address : (a : Ip) → Bytes a → is_private_or_reserved_ip a ≡ true → RefusedAddress a
unfolding is_private_or_reserved_ip
refused-address (v4 text) bytes h = refused-v4 text bytes h
refused-address loopback bytes h = tt
refused-address unspecified bytes h = tt
refused-address (mapped text) bytes h = refused-v4 text bytes h
refused-address (other_v6 group) bytes h = elim (Bool-cases (group / 512 * 512 == 64512)) [
  | inl local ↦ inl (ground arith)
  | inr other ↦ inr (ground arith)
]

pub address-refused : (a : Ip) → Bytes a → RefusedAddress a → is_private_or_reserved_ip a ≡ true
unfolding is_private_or_reserved_ip
address-refused (v4 text) bytes h = v4-refused text bytes h
address-refused loopback bytes h = refl
address-refused unspecified bytes h = refl
address-refused (mapped text) bytes h = v4-refused text bytes h
address-refused (other_v6 group) bytes (inl h) = ground arith
address-refused (other_v6 group) bytes (inr h) = ground arith

abbrev pub NoneRefused : List Ip → Type 0
NoneRefused = All (λ a. ¬ RefusedAddress a)

abbrev pub AllPass : List Ip → Type 0
AllPass = All (λ a. is_private_or_reserved_ip a ≡ false)

pub pass-NoneRefused : (ips : List Ip) → All Bytes ips → AllPass ips → NoneRefused ips
pass-NoneRefused [] bytes all = tt
pass-NoneRefused (a ∷ rest) bytes all =
    (λ refused. cc (address-refused a bytes.0 refused, all.0), pass-NoneRefused rest bytes.1 all.1)

pub NoneRefused-pass : (ips : List Ip) → All Bytes ips → NoneRefused ips → AllPass ips
NoneRefused-pass [] bytes none_refused = tt
NoneRefused-pass (a ∷ rest) bytes none_refused = (
  elim (Bool-cases (is_private_or_reserved_ip a)) [
    | inl h ↦ absurd (none_refused.0 (refused-address a bytes.0 h))
    | inr h ↦ h
  ],
  NoneRefused-pass rest bytes.1 none_refused.1,
)
