-- ===== src/Addr/Tests.antt =====
-- Addresses and masks of small networks, and the theorems at concrete addresses.
use we_nmap_in_rust.Prelude.{◌≡◌, ◌≢◌, ◌↔◌, ◌≤◌, refl, ap, [], ◌∷◌, some, true, replicate, arith}
use we_nmap_in_rust.Prelude.Bytes.{byte_at}
use we_nmap_in_rust.Addr.{
  Addr, network, addr_mtob, mask_to_bits, addr_cmp, masked, bits_to_mask, bits_to_mask_len,
  fill_ones, leading_ones, mask_to_bits_from, bytes_cmp,
}
use we_nmap_in_rust.Addr.Masks.{prefix_mask}
use we_nmap_in_rust.Addr.Contiguous.{addr_mtob_iff}
use we_nmap_in_rust.Addr.Order.{IsAddr, negative}

-- 192.168.1.77/20.
abbrev host : Addr
host = record { addr_type = 2; addr_bits = 20; bytes = 192 ∷ 168 ∷ 1 ∷ 77 ∷ replicate 12 0 }

abbrev other : Addr
other = record { addr_type = 2; addr_bits = 20; bytes = 192 ∷ 168 ∷ 9 ∷ 77 ∷ replicate 12 0 }

host-IsAddr : IsAddr host
host-IsAddr = record {
  type_fits = omega arith;
  bits_fit = omega arith;
  sixteen = refl;
  octets = grind arith;
}

other-IsAddr : IsAddr other
other-IsAddr = record {
  type_fits = omega arith;
  bits_fit = omega arith;
  sixteen = refl;
  octets = grind arith;
}

host-ne-other : host ≢ other
host-ne-other e = absurd (omega (arith, ap (λ (a : Addr). byte_at a.bytes 2) e))

-- The network and the comparison of the two.
network_of_host : (network host).bytes ≡ 192 ∷ 168 ∷ replicate 14 0
unfolding network masked bits_to_mask bits_to_mask_len fill_ones
network_of_host = refl

compare_hosts : negative (addr_cmp host other) ≡ true
unfolding addr_cmp bytes_cmp
compare_hosts = refl

-- A mask with a hole behind a zero byte counts as its leading ones.
holed_mask : mask_to_bits (record host { bytes = 255 ∷ 0 ∷ 255 ∷ replicate 13 0 }) ≡ 8
unfolding mask_to_bits mask_to_bits_from leading_ones
holed_mask = refl

addr_mtob_iff_example :
    (addr_mtob (255 ∷ 255 ∷ 240 ∷ 0 ∷ []) ≡ some 20)
    ↔ ((20 ≤ 32) × (255 ∷ 255 ∷ 240 ∷ 0 ∷ [] ≡ prefix_mask 4 20))
addr_mtob_iff_example = addr_mtob_iff (255 ∷ 255 ∷ 240 ∷ 0 ∷ []) (grind arith) (omega arith) 20
