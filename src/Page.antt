-- ===== src/Page.antt =====
-- src/page.rs: a page of slots that grow forward and cells that grow backward.
pub mod Buffer
pub mod Space
mod Examples
use nutdb.Prelude.{
  ℕ, zero, suc, ◌+◌, ◌-◌, ◌*◌, ◌^◌, Bool, true, false, not, ◌&&◌, ◌||◌, List, [], ◌∷◌, ◌++◌, ltb,
  leb, ◌==◌, if◌then◌else◌, length, take, drop, replicate,
}
use nutdb.Prelude.Io.{Result, ok, err, ErrorKind, invalid, input, ◌>>=◌, ◌>>◌}
use nutdb.Prelude.Order.{same, bytes_order}
use nutdb.Bytes.{Bytes, to_le_bytes, from_le_bytes}
use nutdb.Crc.{crc32}
use nutdb.Page.Buffer.{byte_at, write_at, get_u16, put_u16}

abbrev pub page_size : ℕ
page_size = 4096

abbrev pub header_size : ℕ
header_size = 16

-- `NPG1`
abbrev pub magic : Bytes
magic = 78 ∷ 80 ∷ 71 ∷ 49 ∷ []

abbrev pub version : ℕ
version = 1

pub data PageKind : Type 0 where
  meta internal leaf : PageKind

unfoldable pub kind_byte : PageKind → ℕ
kind_byte PageKind.meta = 1
kind_byte PageKind.internal = 2
kind_byte PageKind.leaf = 3

unfoldable pub decode_kind : ℕ → Result PageKind
decode_kind value =
    if value == 1
    then ok PageKind.meta
    else if value == 2
    then ok PageKind.internal
    else if value == 3
    then ok PageKind.leaf
    else invalid "page: unknown page kind"

pub record SlottedPage : Type 0 where
  pub bytes : Bytes

unfoldable pub new : PageKind → SlottedPage
new kind =
    let blank = write_at 0 magic (replicate page_size 0) in
    let tagged = write_at 4 (version ∷ kind_byte kind ∷ []) blank in
    let counted = put_u16 6 0 tagged in
    let fronted = put_u16 8 header_size counted in record { bytes = put_u16 10 page_size fronted }

-- The number of slots, the end of the slots and the start of the cells.
unfoldable pub count_of : SlottedPage → ℕ
count_of page = get_u16 page.bytes 6

unfoldable pub front_of : SlottedPage → ℕ
front_of page = get_u16 page.bytes 8

unfoldable pub back_of : SlottedPage → ℕ
back_of page = get_u16 page.bytes 10

-- The page with a cell at `cell_at` and its slot.
unfoldable pub place : Bytes → ℕ → SlottedPage → SlottedPage
place cell cell_at page =
    let sized = put_u16 cell_at (length cell) page.bytes in
    let filled = write_at (cell_at + 2) cell sized in
    let slotted = put_u16 (front_of page) cell_at filled in
    let counted = put_u16 6 (count_of page + 1) slotted in
    let fronted = put_u16 8 (front_of page + 2) counted in
    record { bytes = put_u16 10 cell_at fronted }

-- `saturating_sub` is `-`.
unfoldable pub insert : Bytes → SlottedPage → Result (Unit {0}) × SlottedPage
insert cell page =
    if not (ltb (length cell) (2 ^ 16))
    then (input "page: cell too large", page)
    else if ltb (back_of page - front_of page) (4 + length cell)
    then (err (record { kind = ErrorKind.write_zero; message = "page: no free space" }), page)
    else (ok tt, place cell (back_of page - 2 - length cell) page)

-- The cell of the slot at an index.
unfoldable pub cell_at_slot : SlottedPage → ℕ → Result Bytes
cell_at_slot page index =
    let offset = get_u16 page.bytes (header_size + index * 2) in
    let size = get_u16 page.bytes offset in
    if ltb offset header_size || ltb page_size (offset + 2)
    then invalid "page: slot points outside page"
    else if ltb page_size (offset + 2 + size)
    then invalid "page: cell extends outside page"
    else ok (take size (drop (offset + 2) page.bytes))

-- The loop of `cells`, over so many slots from `index` on.
unfoldable pub cells_from : SlottedPage → ℕ → ℕ → Result (List Bytes)
cells_from page index zero = ok []
cells_from page index (suc left) = do
  cell ← cell_at_slot page index
  rest ← cells_from page (suc index) left
  ok (cell ∷ rest)

unfoldable pub cells : SlottedPage → Result (List Bytes)
cells page = cells_from page 0 (count_of page)

-- `bytes[12..16].fill(0)`
unfoldable pub without_checksum : Bytes → Bytes
without_checksum bytes = write_at 12 (0 ∷ 0 ∷ 0 ∷ 0 ∷ []) bytes

unfoldable pub from_bytes : Bytes → Result SlottedPage
from_bytes bytes =
    let page : SlottedPage = record { bytes = bytes } in
    if not (same ⦃o = bytes_order⦄ (take 4 bytes) magic)
    then invalid "page: bad magic"
    else if not (byte_at bytes 4 == version)
    then invalid "page: unsupported version"
    else (decode_kind (byte_at bytes 5)
        >> (if not (front_of page == header_size + count_of page * 2)
              || ltb (back_of page) (front_of page)
              || ltb page_size (back_of page)
            then invalid "page: invalid free-space bounds"
            else if not (crc32 (without_checksum bytes) == from_le_bytes (take 4 (drop 12 bytes)))
            then invalid "page: checksum mismatch"
            else cells page >> ok page))

unfoldable pub finish : SlottedPage → Bytes
finish page =
    let cleared = without_checksum page.bytes in write_at 12 (to_le_bytes 4 (crc32 cleared)) cleared
