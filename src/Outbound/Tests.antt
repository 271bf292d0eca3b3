-- ===== src/Outbound/Tests.antt =====
-- An address of the metadata service of a cloud, and a public one.
use backend_foundation.Prelude.{ℕ, ◌≡◌, ◌↔◌, refl, none, some, All, subst, [], ◌∷◌, arith}
use backend_foundation.Outbound.{
  v4, dotted, Network, safe, ip_refused, assert_safe_outbound_url, is_private_or_reserved_ipv4,
}
use backend_foundation.Outbound.Addresses.{Bytes}
use backend_foundation.Outbound.Blocks.{in_refused_block, address_of, refused_blocks}
use backend_foundation.Outbound.Laws.{Admissible, GivesBytes, safe_url}

refused_blocks_example :
    is_private_or_reserved_ipv4 (dotted 169 254 169 254)
    ≡ in_refused_block (address_of 169 254 169 254)
refused_blocks_example =
    refused_blocks 169 254 169 254 (omega arith) (omega arith) (omega arith) (omega arith)

-- The number 1 is a URL whose name leads to two addresses.
abbrev one_name : Network ℕ
one_name = record {
  parse = λ raw. some (record { protocol = "https:"; hostname = "example.org"; ip = none });
  lookup = λ host. some (v4 (dotted 93 184 216 34) ∷ v4 (dotted 10 0 0 1) ∷ []);
}

one_name-GivesBytes : GivesBytes one_name
one_name-GivesBytes = record {
  own = λ raw u a parsed e. absurd (cc (parsed, e));
  of_name = λ host ips e.
      let same : v4 (dotted 93 184 216 34) ∷ v4 (dotted 10 0 0 1) ∷ [] ≡ ips = cc e in
      subst (All Bytes) same (omega arith);
}

safe_url_example : (assert_safe_outbound_url one_name 1 ≡ safe) ↔ Admissible one_name 1
safe_url_example = safe_url one_name one_name-GivesBytes 1

private_second : assert_safe_outbound_url one_name 1 ≡ ip_refused
unfolding assert_safe_outbound_url
private_second = refl
