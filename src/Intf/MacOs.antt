-- ===== src/Intf/MacOs.antt =====
-- `unix_interfaces` of wnr-dnet/src/intf.rs on macOS: an entry with a link address, a `sockaddr_dl`.
use we_nmap_in_rust.Prelude.{
  ℕ, zero, suc, ◌+◌, ◌≤◌, ◌≡◌, refl, ap, List, [], ◌∷◌, ◌++◌, Option, ◌==◌, if◌then◌else◌, length,
  take, drop, length-append, arith,
}
use we_nmap_in_rust.Prelude.Text.{Text}
use we_nmap_in_rust.Addr.{Addr, empty, hw}
use we_nmap_in_rust.Intf.{IntfEntry}
use we_nmap_in_rust.Intf.Unix.{other_family, unix_entry}

-- `sockaddr_dl`: the lengths of the name and of the address that it announces, and its memory.
pub record LinkAddr : Type 0 where
  pub nlen : ℕ
  pub alen : ℕ
  pub memory : List ℕ

-- The address: six bytes from the offset `sdl_nlen` of the structure.
unfoldable pub macos_link : LinkAddr → Addr
unfolding hw
macos_link sa = if sa.alen == 6 then hw (take 6 (drop sa.nlen sa.memory)) else empty

-- An entry of the family `AF_LINK`, for which no other address is read.
unfoldable pub macos_entry : Option Text → ℕ → LinkAddr → IntfEntry
unfolding unix_entry macos_link
macos_entry name flags sa =
    record (unix_entry (record { name = name; flags = flags; addr = other_family })) {
      link_addr = macos_link sa;
    }

-- What lies six bytes and more behind an offset is not read there.
take-drop-append {ℓ} :
    {A : Type ℓ} (xs ys zs : List A) (n k : ℕ)
    → n + k ≤ length xs
    → take k (drop n (xs ++ ys)) ≡ take k (drop n (xs ++ zs))
take-drop-append xs ys zs zero zero h = refl
take-drop-append [] ys zs zero (suc k) h = absurd (omega (arith, h))
take-drop-append (x ∷ xs) ys zs zero (suc k) h =
    ap (λ l. x ∷ l) (take-drop-append xs ys zs zero k (omega (arith, h)))
take-drop-append [] ys zs (suc n) k h = absurd (omega (arith, h))
take-drop-append (x ∷ xs) ys zs (suc n) k h = take-drop-append xs ys zs n k (omega (arith, h))

-- A `sockaddr_dl` holds eight bytes of fields, then the name, then the hardware address.
abbrev pub link_addr_of : List ℕ → List ℕ → List ℕ → LinkAddr
link_addr_of fields name mac = record {
  nlen = length name;
  alen = length mac;
  memory = (fields ++ name) ++ mac;
}

-- On macOS the link address of an entry is the same for any two hardware addresses of six bytes: it is
-- read from other bytes.
pub macos_link_lem :
    (name : Option Text) (flags : ℕ) (fields label mac other : List ℕ)
    → length fields ≡ 8
    → length mac ≡ 6
    → length other ≡ 6
    → (macos_entry name flags (link_addr_of fields label mac)).link_addr
      ≡ (macos_entry name flags (link_addr_of fields label other)).link_addr
unfolding macos_entry macos_link
macos_link_lem name flags fields label mac other eight six six' =
    rw (six, six')
      (ap hw (
        take-drop-append (fields ++ label) mac other (length label) 6
          (omega (arith, eight, length-append {0} fields label))))
