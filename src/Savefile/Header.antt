-- ===== src/Savefile/Header.antt =====
-- The global header of a savefile, written and read, in both byte orders.
use we_nmap_in_rust.Prelude.{
  ℕ, ◌/◌, ◌%◌, ◌^◌, ◌<◌, ◌≡◌, refl, ◌∙◌, List, ◌∷◌, ◌++◌, some, none, ◌≤◌, le→ltb, lt→ltb,
  length-append, take-append_length, drop-append_length, Bool, true, false, ap, if◌then◌else◌,
  length, arith,
}
use we_nmap_in_rust.Prelude.Bytes.{
  IsU16, IsU32, byte_at, u16_from_be, u32_from_be, u32_from_le, u16_to_be, u32_to_be, u16_to_le,
  u32_to_le,
}
use we_nmap_in_rust.Prelude.Result.{Result, ok, err}
use we_nmap_in_rust.Savefile.{
  Error, bad_magic, opened, open_raw, parse_with, PcapFileHeader, needs_swap, known_magic, read_u16,
  read_u32, parse_header, read_exact, open_reader, header_bytes, new_header, create,
}

-- A header as a machine of either byte order writes it: the magic tells the order.
abbrev u16_bytes : Bool → ℕ → List ℕ
u16_bytes swap n = if swap then u16_to_be n else u16_to_le n

abbrev u32_bytes : Bool → ℕ → List ℕ
u32_bytes swap n = if swap then u32_to_be n else u32_to_le n

abbrev encode : Bool → PcapFileHeader → List ℕ
encode swap h =
    u32_to_le h.magic
    ++ (u16_bytes swap h.version_major
        ++ (u16_bytes swap h.version_minor
            ++ (u32_bytes swap h.thiszone
                ++ (u32_bytes swap h.sigfigs
                    ++ (u32_bytes swap h.snaplen ++ u32_bytes swap h.linktype)))))

abbrev pub encode_header : PcapFileHeader → List ℕ
encode_header h = encode (needs_swap h) h

-- The fields have the widths of their types.
pub record Fits (h : PcapFileHeader) : Type 0 where
  pub magic_fits : IsU32 h.magic
  pub major_fits : IsU16 h.version_major
  pub minor_fits : IsU16 h.version_minor
  pub zone_fits : IsU32 h.thiszone
  pub sigfigs_fits : IsU32 h.sigfigs
  pub snaplen_fits : IsU32 h.snaplen
  pub linktype_fits : IsU32 h.linktype

-- A word is the value of its bytes.
pub u16-be : (n : ℕ) → IsU16 n → u16_from_be (n / 2 ^ 8 % 2 ^ 8) (n % 2 ^ 8) ≡ n
u16-be n h = omega arith

pub u32-be :
    (n : ℕ)
    → IsU32 n
    → u32_from_be (n / 2 ^ 24 % 2 ^ 8) (n / 2 ^ 16 % 2 ^ 8) (n / 2 ^ 8 % 2 ^ 8) (n % 2 ^ 8) ≡ n
u32-be n h = omega arith

module _ (h : PcapFileHeader) (fits : Fits h) where
  fields :
      (swap : Bool) (raw : List ℕ)
      → raw ≡ encode swap h
      → ◌≡◌ {A = Result Error PcapFileHeader}
          (ok (record {
            magic = h.magic;
            version_major = read_u16 swap raw 4;
            version_minor = read_u16 swap raw 6;
            thiszone = read_u32 swap raw 8;
            sigfigs = read_u32 swap raw 12;
            snaplen = read_u32 swap raw 16;
            linktype = read_u32 swap raw 20;
          }))
          (ok h)
  unfolding read_u16 read_u32
  fields true raw e = rw e λ i. ok (record {
    magic = h.magic;
    version_major = u16-be h.version_major fits.major_fits i;
    version_minor = u16-be h.version_minor fits.minor_fits i;
    thiszone = u32-be h.thiszone fits.zone_fits i;
    sigfigs = u32-be h.sigfigs fits.sigfigs_fits i;
    snaplen = u32-be h.snaplen fits.snaplen_fits i;
    linktype = u32-be h.linktype fits.linktype_fits i;
  })
  fields false raw e = rw e λ i. ok (record {
    magic = h.magic;
    version_major = u16-be h.version_major fits.major_fits i;
    version_minor = u16-be h.version_minor fits.minor_fits i;
    thiszone = u32-be h.thiszone fits.zone_fits i;
    sigfigs = u32-be h.sigfigs fits.sigfigs_fits i;
    snaplen = u32-be h.snaplen fits.snaplen_fits i;
    linktype = u32-be h.linktype fits.linktype_fits i;
  })

  parse_with-encode :
      (swap : Bool)
      → known_magic h.magic ≡ true
      → needs_swap h ≡ swap
      → parse_with h.magic (encode swap h) ≡ ok h
  unfolding parse_with needs_swap
  parse_with-encode true known s = rw (known, s) (fields true _ refl)
  parse_with-encode false known s = rw (known, s) (fields false _ refl)

  parse_header-encode : known_magic h.magic ≡ true → parse_header (encode_header h) ≡ ok h
  unfolding parse_header
  parse_header-encode known =
      ap (λ m. parse_with m (encode_header h)) (magic_bytes (needs_swap h))
      ∙ parse_with-encode (needs_swap h) known refl
    where
      magic_bytes :
          (swap : Bool)
          → u32_from_le
              (byte_at (encode swap h) 0)
              (byte_at (encode swap h) 1)
              (byte_at (encode swap h) 2)
              (byte_at (encode swap h) 3)
            ≡ h.magic
      magic_bytes true = u32-be h.magic fits.magic_fits
      magic_bytes false = u32-be h.magic fits.magic_fits

pub read_exact-append :
    (n : ℕ) (front back : List ℕ)
    → length front ≡ n
    → read_exact n (front ++ back) ≡ some (front, back)
unfolding read_exact
read_exact-append n front back e = rw (
  le→ltb (length (front ++ back)) n (omega (arith, length-append front back)),
  take-append_length n front back e,
  drop-append_length n front back e,
)

pub read_exact_short : (n : ℕ) (bytes : List ℕ) → length bytes < n → read_exact n bytes ≡ none
unfolding read_exact
read_exact_short n bytes h = rw (lt→ltb (length bytes) n h)

encode-length : (swap : Bool) (h : PcapFileHeader) → length (encode swap h) ≡ 24
encode-length true h = refl
encode-length false h = refl

-- A file that begins with a header in the byte order that its magic announces, whatever follows:
-- opening it gives that header and leaves what follows to be read.
pub open-encode_header :
    (h : PcapFileHeader) (rest : List ℕ)
    → Fits h
    → known_magic h.magic ≡ true
    → open_reader (encode_header h ++ rest) ≡ ok (record { header = h; rest = rest })
unfolding open_reader
open-encode_header h rest fits known = rw (
  read_exact-append 24 (encode_header h) rest (encode-length (needs_swap h) h),
  open_raw,
  parse_header-encode h fits known,
  opened,
)

-- A file of at least 24 bytes with another magic is refused.
pub open-bad_magic :
    (a b c d : ℕ) (rest : List ℕ)
    → 20 ≤ length rest
    → known_magic (u32_from_le a b c d) ≡ false
    → open_reader (a ∷ b ∷ c ∷ d ∷ rest) ≡ err bad_magic
unfolding open_reader parse_header read_exact
open-bad_magic a b c d rest size unknown =
    rw (le→ltb (length (a ∷ b ∷ c ∷ d ∷ rest)) 24 (omega arith), unknown)

-- `SavefileWriter::create` writes a header that opens: the reader has the writer's header, and
-- whatever was written after it is left to be read.
pub open-create :
    (snaplen linktype : ℕ) (rest : List ℕ)
    → IsU32 snaplen
    → IsU32 linktype
    → open_reader ((create snaplen linktype).out ++ rest)
      ≡ ok (record { header = (create snaplen linktype).header; rest = rest })
unfolding create new_header header_bytes needs_swap known_magic
open-create snaplen linktype rest hs hl =
    open-encode_header (new_header snaplen linktype) rest
      (record {
        magic_fits = omega arith;
        major_fits = omega arith;
        minor_fits = omega arith;
        zone_fits = omega arith;
        sigfigs_fits = omega arith;
        snaplen_fits = hs;
        linktype_fits = hl;
      })
      refl
