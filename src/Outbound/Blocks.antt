-- ===== src/Outbound/Blocks.antt =====
-- The IPv4 addresses that are refused, as blocks of the address space.
use backend_foundation.Prelude.{
  ℕ, ◌+◌, ◌*◌, ◌/◌, ◌<◌, ◌==◌, ◌≡◌, ◌||◌, ◌&&◌, leb, refl, Bool, arith,
}
use backend_foundation.Outbound.{dotted, is_private_or_reserved_ipv4}

-- A block by its first address and its size.
abbrev pub in_block : ℕ → ℕ → ℕ → Bool
in_block first size address = address / size == first / size

-- The address as a number of 32 bits.
abbrev pub address_of : ℕ → ℕ → ℕ → ℕ → ℕ
address_of a b c d = a * 16777216 + (b * 65536 + (c * 256 + d))

-- 127.0.0.0/8, 10.0.0.0/8, 172.16.0.0/12, 192.168.0.0/16, 169.254.0.0/16, 0.0.0.0/8, 224.0.0.0/4 and
-- 240.0.0.0/4.
abbrev pub in_refused_block : ℕ → Bool
in_refused_block n =
    in_block 2130706432 16777216 n
    || (in_block 167772160 16777216 n
        || (in_block 2886729728 1048576 n
            || (in_block 3232235520 65536 n
                || (in_block 2851995648 65536 n
                    || (in_block 0 16777216 n
                        || (in_block 3758096384 268435456 n || in_block 4026531840 268435456 n))))))

module _ (a b c d : ℕ) (ha : a < 256) (hb : b < 256) (hc : c < 256) (hd : d < 256) where
  first_8-bits : address_of a b c d / 16777216 ≡ a
  first_8-bits = omega arith

  first_12-bits : address_of a b c d / 1048576 ≡ a * 16 + b / 16
  first_12-bits = omega arith

  first_16-bits : address_of a b c d / 65536 ≡ a * 256 + b
  first_16-bits = omega arith

  first_4-bits : address_of a b c d / 268435456 ≡ a / 16
  first_4-bits = omega arith

  private_172 : (a * 16 + b / 16 == 2753) ≡ ((a == 172) && (leb 16 b && leb b 31))
  private_172 = ground arith

  first_two : (x y : ℕ) → y < 256 → (a * 256 + b == x * 256 + y) ≡ ((a == x) && (b == y))
  first_two x y hy = ground arith

  multicast_or_reserved : ((a / 16 == 14) || (a / 16 == 15)) ≡ leb 224 a
  multicast_or_reserved = ground arith

-- The tests on the first two numbers of an IPv4 address refuse exactly the addresses of these eight
-- blocks: loopback, the three private ones, link-local, `this network`, multicast and reserved.
pub refused_blocks :
    (a b c d : ℕ)
    → a < 256
    → b < 256
    → c < 256
    → d < 256
    → is_private_or_reserved_ipv4 (dotted a b c d) ≡ in_refused_block (address_of a b c d)
unfolding is_private_or_reserved_ipv4
refused_blocks a b c d ha hb hc hd =
    rw
      (
        first_8-bits a b c d ha hb hc hd,
        first_12-bits a b c d ha hb hc hd,
        first_16-bits a b c d ha hb hc hd,
        first_4-bits a b c d ha hb hc hd,
        private_172 a b c d ha hb hc hd,
        first_two a b c d ha hb hc hd 192 168 (omega arith),
        first_two a b c d ha hb hc hd 169 254 (omega arith),
        multicast_or_reserved a b c d ha hb hc hd,
      )
      refl
