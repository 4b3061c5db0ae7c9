-- ===== src/Page/Space.antt =====
-- The space of a page of src/page.rs, between its slots and its cells.
use nutdb.Prelude.{
  ℕ, ◌+◌, ◌-◌, ◌*◌, ◌/◌, ◌%◌, ◌^◌, ◌≤◌, ◌<◌, ◌≡◌, ◌⊎◌, refl, ap, ◌∙◌, inl, Bool, true, false, not,
  [], ◌∷◌, arith, length, ltb, if◌then◌else◌,
}
use nutdb.Prelude.Io.{Error, ErrorKind, Result, ok, err, input}
use nutdb.Bytes.{Bytes}
use nutdb.Page.Buffer.{byte_at, write_at, get_u16, put_u16, length-write_at, byte_at-write_at}
use nutdb.Page.{SlottedPage, count_of, front_of, back_of, place, insert}

-- A page is full size, its slots end where the header says, and no slot lies among the cells.
pub record IsPage (page : SlottedPage) : Type 0 where
  pub size : length page.bytes ≡ 4096
  pub slots : front_of page ≡ 16 + count_of page * 2
  pub ordered : front_of page ≤ back_of page
  pub fits : back_of page ≤ 4096

-- A write beside a field leaves it.
get_u16-write_at :
    (offset q : ℕ) (new bytes : Bytes)
    → offset + length new ≤ length bytes
    → (q + 2 ≤ offset) ⊎ (offset + length new ≤ q)
    → get_u16 (write_at offset new bytes) q ≡ get_u16 bytes q
unfolding get_u16
get_u16-write_at offset q new bytes h apart = ground (
  arith,
  byte_at-write_at offset new bytes q h,
  byte_at-write_at offset new bytes (q + 1) h,
  apart,
)

get_u16-put_u16 :
    (offset value : ℕ) (bytes : Bytes)
    → offset + 2 ≤ length bytes
    → value < 65536
    → get_u16 (put_u16 offset value bytes) offset ≡ value
unfolding get_u16 put_u16 byte_at
get_u16-put_u16 offset value bytes h small =
    let pair = value % 256 ∷ value / 256 % 256 ∷ [] in
    let zero_off : offset - offset ≡ 0 = omega arith in
    let one_off : offset + 1 - offset ≡ 1 = omega arith in
    let low = byte_at-write_at offset pair bytes offset h in
    let high = byte_at-write_at offset pair bytes (offset + 1) h in
    ground (arith, low, high, ap (byte_at pair) zero_off, ap (byte_at pair) one_off, small)

put_u16-apart :
    (offset q value : ℕ) (bytes : Bytes)
    → offset + 2 ≤ length bytes
    → (q + 2 ≤ offset) ⊎ (offset + 2 ≤ q)
    → get_u16 (put_u16 offset value bytes) q ≡ get_u16 bytes q
unfolding put_u16
put_u16-apart offset q value bytes h apart = get_u16-write_at offset q _ bytes h apart

length-put_u16 :
    (offset value : ℕ) (bytes : Bytes) → length (put_u16 offset value bytes) ≡ length bytes
unfolding put_u16
length-put_u16 offset value bytes = length-write_at offset _ bytes

-- The header after a header of three fields is written.
header_fields :
    (count front back : ℕ) (bytes : Bytes)
    → 12 ≤ length bytes
    → count < 65536
    → front < 65536
    → back < 65536
    → (get_u16 (put_u16 10 back (put_u16 8 front (put_u16 6 count bytes))) 6 ≡ count)
      × (get_u16 (put_u16 10 back (put_u16 8 front (put_u16 6 count bytes))) 8 ≡ front)
      × (get_u16 (put_u16 10 back (put_u16 8 front (put_u16 6 count bytes))) 10 ≡ back)
header_fields count front back bytes h c f b =
    let one = put_u16 6 count bytes in
    let two = put_u16 8 front one in
    let size_one = length-put_u16 6 count bytes in
    let size_two = length-put_u16 8 front one in
    let room_one : 8 + 2 ≤ length one = omega (arith, size_one, h) in
    let room_two : 10 + 2 ≤ length two = omega (arith, size_one, size_two, h) in
    (
      put_u16-apart 10 6 back two room_two (inl (omega arith))
          ∙ put_u16-apart 8 6 front one room_one (inl (omega arith))
          ∙ get_u16-put_u16 6 count bytes (omega (arith, h)) c,
      put_u16-apart 10 8 back two room_two (inl (omega arith))
          ∙ get_u16-put_u16 8 front one room_one f,
      get_u16-put_u16 10 back two room_two b,
    )

place-IsPage :
    (page : SlottedPage) (cell : Bytes) (cell_at : ℕ)
    → IsPage page
    → front_of page + 2 ≤ cell_at
    → cell_at ≤ 4096
    → IsPage (place cell cell_at page)
      × (count_of (place cell cell_at page) ≡ count_of page + 1)
      × (back_of (place cell cell_at page) ≡ cell_at)
unfolding place count_of front_of back_of
place-IsPage page cell cell_at h low high =
    let sized = put_u16 cell_at (length cell) page.bytes in
    let filled = write_at (cell_at + 2) cell sized in
    let slotted = put_u16 (front_of page) cell_at filled in
    let counted = put_u16 6 (count_of page + 1) slotted in
    let fronted = put_u16 8 (front_of page + 2) counted in
    let size =
      length-put_u16 (front_of page) cell_at filled
      ∙ length-write_at (cell_at + 2) cell sized
      ∙ length-put_u16 cell_at (length cell) page.bytes
      ∙ h.size in
    let small : count_of page + 1 < 65536 = omega (arith, h.slots, low, high) in
    let (count, front, back) =
      header_fields (count_of page + 1) (front_of page + 2) cell_at slotted (omega (arith, size))
        small (omega (arith, low, high)) (omega (arith, high)) in
    (
      record {
        size =
            length-put_u16 10 cell_at fronted
            ∙ length-put_u16 8 (front_of page + 2) counted
            ∙ length-put_u16 6 (count_of page + 1) slotted
            ∙ size;
        slots = omega (arith, count, front, h.slots);
        ordered = omega (arith, front, back, low);
        fits = omega (arith, back, high);
      },
      count,
      back,
    )

-- A page as it was, with an error, or one that holds a cell more.
unfoldable pub Inserted : Bytes → SlottedPage → Result (Unit {0}) × SlottedPage → Type 0
Inserted cell page (err e, page') = page' ≡ page
Inserted cell page (ok _, page') =
    IsPage page'
    × (count_of page' ≡ count_of page + 1)
    × (back_of page' + 2 + length cell ≡ back_of page)

Inserted-if :
    (cell : Bytes) (page : SlottedPage) (b : Bool) (x y : Result (Unit {0}) × SlottedPage)
    → (b ≡ true → Inserted cell page x)
    → (b ≡ false → Inserted cell page y)
    → Inserted cell page (if b then x else y)
Inserted-if cell page true x y h k = h refl
Inserted-if cell page false x y h k = k refl

Inserted-refused :
    (cell : Bytes) (page : SlottedPage) (e : Error) → Inserted cell page (err e, page)
unfolding Inserted
Inserted-refused cell page e = refl

Inserted-placed :
    (page : SlottedPage) (cell : Bytes)
    → IsPage page
    → ltb (back_of page - front_of page) (4 + length cell) ≡ false
    → Inserted cell page (ok tt, place cell (back_of page - 2 - length cell) page)
unfolding Inserted
Inserted-placed page cell h room =
    let cell_at = back_of page - 2 - length cell in
    let space : 4 + length cell ≤ back_of page - front_of page = ground (arith, room) in
    let (page', count, back) =
      place-IsPage page cell cell_at h (omega (arith, space)) (omega (arith, h.fits)) in
    (page', count, omega (arith, back, space))

-- Inserting a cell into a page that is full size, whose slots end where its header says and before
-- its cells, gives an error and leaves the page, or gives such a page with one slot more, whose
-- cells begin earlier by the bytes of the cell and two.
pub insert-Inserted :
    (page : SlottedPage) (cell : Bytes) → IsPage page → Inserted cell page (insert cell page)
unfolding insert
insert-Inserted page cell h =
    let full = ltb (back_of page - front_of page) (4 + length cell) in
    let refused : Result (Unit {0}) × SlottedPage =
      (err (record { kind = ErrorKind.write_zero; message = "page: no free space" }), page) in
    let placed : Result (Unit {0}) × SlottedPage =
      (ok tt, place cell (back_of page - 2 - length cell) page) in
    Inserted-if cell page (not (ltb (length cell) (2 ^ 16))) (input "page: cell too large", page)
      (if full then refused else placed) (λ _. Inserted-refused cell page _)
      λ _.
        Inserted-if cell page full refused placed (λ _. Inserted-refused cell page _)
          (Inserted-placed page cell h)
