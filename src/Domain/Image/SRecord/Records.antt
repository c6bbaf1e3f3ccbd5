-- ===== src/Domain/Image/SRecord/Records.antt =====
-- S-records as the format describes them: how a file is written, and what it loads.
use jlink_mcp_v.Base.{ℕ, ◌+◌, ◌-◌, ◌/◌, ◌%◌, ◌^◌, ◌<◌, List, [], ◌∷◌, ◌++◌, All, length}
use jlink_mcp_v.Base.Lines.{unlines}
use jlink_mcp_v.Domain.Image.{FirmwareSegment}
use jlink_mcp_v.Domain.Image.Text.{byte_sum}
use jlink_mcp_v.Domain.Image.Text.Encode.{IsByte, encode_bytes}

-- How many bytes an address has.
pub data Width : Type 0 where
  two three four : Width

abbrev pub bytes_of : Width → ℕ
bytes_of two = 2
bytes_of three = 3
bytes_of four = 4

-- The types of the data records and of the records that end a file.
abbrev pub data_kind : Width → ℕ
data_kind two = b'1'
data_kind three = b'2'
data_kind four = b'3'

abbrev pub end_kind : Width → ℕ
end_kind two = b'9'
end_kind three = b'8'
end_kind four = b'7'

abbrev pub be_bytes : Width → ℕ → List ℕ → List ℕ
be_bytes two n rest = n / 256 ∷ n % 256 ∷ rest
be_bytes three n rest = n / 65536 ∷ n / 256 % 256 ∷ n % 256 ∷ rest
be_bytes four n rest = n / 16777216 ∷ n / 65536 % 256 ∷ n / 256 % 256 ∷ n % 256 ∷ rest

abbrev pub address_mod : Width → ℕ
address_mod two = 2 ^ 16
address_mod three = 2 ^ 24
address_mod four = 2 ^ 32

pub record DataRecord : Type 0 where
  pub width : Width
  pub address : ℕ
  pub payload : List ℕ

-- What a record with an address can hold: its length is a byte.
abbrev pub IsBody : Width → ℕ → List ℕ → Type 0
IsBody width address payload =
    (address < address_mod width) × (length payload < 251) × All IsByte payload

abbrev pub IsDataRecord : DataRecord → Type 0
IsDataRecord d = IsBody d.width d.address d.payload

-- The byte that makes the sum of the record 255 more than a multiple of 256.
abbrev pub complement : List ℕ → ℕ
complement bytes = 255 - byte_sum 0 bytes

abbrev pub counted : Width → ℕ → List ℕ → List ℕ
counted width address payload =
    (bytes_of width + length payload + 1) ∷ be_bytes width address payload

abbrev pub s_record : Width → ℕ → List ℕ → List ℕ
s_record width address payload =
    let front = counted width address payload in front ++ (complement front ∷ [])

unfoldable pub s_line : ℕ → Width → ℕ → List ℕ → List ℕ
s_line kind width address payload = b'S' ∷ kind ∷ encode_bytes (s_record width address payload)

unfoldable pub data_lines : List DataRecord → List (List ℕ) → List (List ℕ)
unfolding s_line
data_lines [] rest = rest
data_lines (d ∷ ds) rest =
    s_line (data_kind d.width) d.width d.address d.payload ∷ data_lines ds rest

-- A header, the data, their number, and the end with an entry address.
pub record SFile : Type 0 where
  pub header : List ℕ
  pub records : List DataRecord
  pub end_width : Width
  pub entry : ℕ

abbrev pub IsFile : SFile → Type 0
IsFile f =
    IsBody two 0 f.header
    × All IsDataRecord f.records
    × (length f.records < 2 ^ 16)
    × (f.entry < address_mod f.end_width)

unfoldable pub s_lines : SFile → List (List ℕ)
unfolding data_lines
s_lines f =
    s_line b'0' two 0 f.header
    ∷ data_lines f.records (
        s_line b'5' two (length f.records) []
        ∷ s_line (end_kind f.end_width) f.end_width f.entry []
        ∷ [])

unfoldable pub s_file : SFile → List ℕ
unfolding s_lines
s_file f = unlines (s_lines f)

-- What a data record loads, in front of other segments: a record without data loads nothing.
abbrev pub loaded : ℕ → List ℕ → List FirmwareSegment → List FirmwareSegment
loaded address [] segments = segments
loaded address (b ∷ payload) segments = record { address = address; bytes = b ∷ payload } ∷ segments

abbrev pub s_loads : List DataRecord → List FirmwareSegment
s_loads [] = []
s_loads (d ∷ ds) = loaded d.address d.payload (s_loads ds)
