-- ===== src/Wal/Format.antt =====
-- crates/lug-wal/src/format.rs: the shapes on disk. The CRC-32 of crc32fast is the parameter `crc`.
use lug.Prelude.{
  ℕ, zero, suc, ◌+◌, ◌-◌, ◌*◌, ◌/◌, ◌%◌, ◌^◌, Bool, true, false, ◌&&◌, Option, none, some, List, [],
  ◌∷◌, ◌++◌, length, take, drop, ltb, leb, ◌==◌, if◌then◌else◌, u64_mod, u32_mod,
}
use lug.Prelude.Bytes.{le_bytes, from_le}

-- b"LUGSEG\x00\x01" and b"LUGHDR\x00\x01".
abbrev pub seg_magic : List ℕ
seg_magic = 76 ∷ 85 ∷ 71 ∷ 83 ∷ 69 ∷ 71 ∷ 0 ∷ 1 ∷ []

abbrev pub hdr_magic : List ℕ
hdr_magic = 76 ∷ 85 ∷ 71 ∷ 72 ∷ 68 ∷ 82 ∷ 0 ∷ 1 ∷ []

abbrev pub seg_prologue : ℕ
seg_prologue = 16

abbrev pub rec_prefix : ℕ
rec_prefix = 16

-- `64 << 20`.
abbrev pub max_payload : ℕ
max_payload = 64 * 2 ^ 20

abbrev pub zeros : ℕ → List ℕ
zeros zero = []
zeros (suc n) = 0 ∷ zeros n

-- Equality of byte strings.
abbrev pub bytes_eq : List ℕ → List ℕ → Bool
bytes_eq [] [] = true
bytes_eq [] (c ∷ cs) = false
bytes_eq (b ∷ bs) [] = false
bytes_eq (b ∷ bs) (c ∷ cs) = if b == c then bytes_eq bs cs else false

-- The decimal digits of a number, most significant first, as `fuel` allows; a `u64` has at most 20.
abbrev pub digits : ℕ → ℕ → List ℕ
digits zero n = []
digits (suc fuel) n =
    let more = digits fuel (n / 10) in (if ltb n 10 then [] else more) ++ (48 + n % 10) ∷ []

abbrev pub dot_seg : List ℕ
dot_seg = 46 ∷ 115 ∷ 101 ∷ 103 ∷ []

abbrev pub repeat_zero_digit : ℕ → List ℕ
repeat_zero_digit zero = []
repeat_zero_digit (suc n) = 48 ∷ repeat_zero_digit n

-- `format!("{first:018}.seg")`.
unfoldable pub segment_name : ℕ → List ℕ
segment_name first =
    let ds = digits 20 first in (repeat_zero_digit (18 - length ds) ++ ds) ++ dot_seg

abbrev pub all_digits : List ℕ → Bool
all_digits [] = true
all_digits (b ∷ bs) = if leb 48 b && leb b 57 then all_digits bs else false

abbrev pub decimal_value : ℕ → List ℕ → ℕ
decimal_value acc [] = acc
decimal_value acc (b ∷ bs) = decimal_value (acc * 10 + (b - 48)) bs

-- `strip_suffix`, the length, the digits, and `parse` into a `u64`.
unfoldable pub parse_segment_name : List ℕ → Option ℕ
parse_segment_name name =
    let stem = take (length name - 4) name in
    if leb 4 (length name) && bytes_eq (drop (length name - 4) name) dot_seg
    then (if leb 18 (length stem) && leb (length stem) 20 && all_digits stem
        then if ltb (decimal_value 0 stem) u64_mod then some (decimal_value 0 stem) else none
        else none)
    else none

abbrev pub segment_prologue : List ℕ
segment_prologue = seg_magic ++ zeros 8

module _ (crc : List ℕ → ℕ) where
  -- The hasher is fed the version and then the payload.
  abbrev pub checksum : ℕ → List ℕ → ℕ
  checksum version payload = crc (le_bytes 8 version ++ payload)

  abbrev pub record_prefix : ℕ → List ℕ → List ℕ
  record_prefix version payload =
      le_bytes 4 (length payload % u32_mod)
      ++ (le_bytes 4 (checksum version payload) ++ le_bytes 8 version)

  abbrev pub header_bytes : List ℕ → List ℕ
  header_bytes json =
      hdr_magic ++ (le_bytes 4 (crc json) ++ (le_bytes 4 (length json % u32_mod) ++ json))

-- The length, the checksum and the version of a prefix.
abbrev pub split_prefix : List ℕ → ℕ × ℕ × ℕ
split_prefix prefix =
    (from_le (take 4 prefix), from_le (take 4 (drop 4 prefix)), from_le (take 8 (drop 8 prefix)))
