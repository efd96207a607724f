-- ===== src/Enip.antt =====
-- EtherNetIP.cpp, EtherNetIP.h: the client that reads and writes the PLC's tags. Messages and tags
-- are lists of bytes. `none` stands for the 0 or false that the source returns.
pub mod Path
pub mod Read
pub mod Request
pub mod Session
pub mod Value
pub mod Packet
pub mod Calls
mod Examples
use opta_gateway_mt.Base.{ℕ, ◌+◌, ◌*◌, ◌/◌, ◌%◌, List, [], ◌∷◌, get_or}

abbrev pub Bytes : Type 0
Bytes = List ℕ

abbrev pub svc_read_tag : ℕ
svc_read_tag = 0x4c

abbrev pub svc_write_tag : ℕ
svc_write_tag = 0x4d

abbrev pub svc_multiple : ℕ
svc_multiple = 0x0a

abbrev pub svc_unconnected_send : ℕ
svc_unconnected_send = 0x52

abbrev pub type_bool : ℕ
type_bool = 0xc1

abbrev pub type_int : ℕ
type_int = 0xc3

abbrev pub type_dint : ℕ
type_dint = 0xc4

abbrev pub type_uint : ℕ
type_uint = 0xc7

abbrev pub type_udint : ℕ
type_udint = 0xc8

abbrev pub type_real : ℕ
type_real = 0xca

-- `WORK_BUF`, `EIP_MAX_MSG`, `EIP_MAX_MSP_TAGS`.
abbrev pub work_buf : ℕ
work_buf = 256

abbrev pub max_msg : ℕ
max_msg = 700

abbrev pub max_msp_tags : ℕ
max_msp_tags = 12

abbrev pub put16 : ℕ → Bytes
put16 v = v % 256 ∷ v / 256 % 256 ∷ []

abbrev pub put32 : ℕ → Bytes
put32 v = v % 256 ∷ v / 256 % 256 ∷ v / 65536 % 256 ∷ v / 16777216 % 256 ∷ []

-- Past the bytes that were put into a buffer a read finds whatever is there.
abbrev pub Stale : Type 0
Stale = ℕ → ℕ

abbrev pub byte_at : Stale → Bytes → ℕ → ℕ
byte_at stale b i = get_or b i (stale i)

abbrev pub get16 : Stale → Bytes → ℕ → ℕ
get16 stale b i = byte_at stale b i + 256 * byte_at stale b (i + 1)

abbrev pub get32 : Stale → Bytes → ℕ → ℕ
get32 stale b i = get16 stale b i + 65536 * get16 stale b (i + 2)
