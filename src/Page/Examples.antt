-- ===== src/Page/Examples.antt =====
-- A page of src/page.rs with two cells.
use nutdb.Prelude.{◌≡◌, refl, [], ◌∷◌, arith, length}
use nutdb.Prelude.Io.{ok}
use nutdb.Bytes.{Bytes}
use nutdb.Page.Buffer.{byte_at, overlay, write_at, get_u16, put_u16}
use nutdb.Page.{
  SlottedPage, PageKind, kind_byte, new, count_of, front_of, back_of, place, insert, cell_at_slot,
  cells_from, cells,
}
use nutdb.Page.Space.{IsPage, Inserted, insert-Inserted}

abbrev blank : SlottedPage
blank = new PageKind.leaf

-- `alpha` and `beta`
abbrev alpha : Bytes
alpha = 97 ∷ 108 ∷ 112 ∷ 104 ∷ 97 ∷ []

abbrev beta : Bytes
beta = 98 ∷ 101 ∷ 116 ∷ 97 ∷ []

blank_fields :
    (length blank.bytes ≡ 4096)
    × (count_of blank ≡ 0)
    × (front_of blank ≡ 16)
    × (back_of blank ≡ 4096)
unfolding new kind_byte put_u16 get_u16 write_at overlay byte_at count_of front_of back_of
blank_fields = (refl, refl, refl, refl)

blank-IsPage : IsPage blank
blank-IsPage =
    let (size, count, front, back) = blank_fields in
    record {
      size = size;
      slots = omega (arith, count, front);
      ordered = omega (arith, front, back);
      fits = omega (arith, back);
    }

insert-Inserted_example : Inserted alpha blank (insert alpha blank)
insert-Inserted_example = insert-Inserted blank alpha blank-IsPage

cells_runs : cells (insert beta (insert alpha blank).1).1 ≡ ok (alpha ∷ beta ∷ [])
unfolding new kind_byte put_u16 get_u16 write_at overlay byte_at count_of front_of back_of place
    insert cell_at_slot cells_from cells
cells_runs = refl
