-- ===== src/Sql/Words.antt =====
-- The key words of src/sql/parser.rs.
use nutdb.Prelude.{[], ◌∷◌}
use nutdb.Bytes.{Bytes}

abbrev pub create_word : Bytes
create_word = 67 ∷ 82 ∷ 69 ∷ 65 ∷ 84 ∷ 69 ∷ []

abbrev pub table_word : Bytes
table_word = 84 ∷ 65 ∷ 66 ∷ 76 ∷ 69 ∷ []

abbrev pub insert_word : Bytes
insert_word = 73 ∷ 78 ∷ 83 ∷ 69 ∷ 82 ∷ 84 ∷ []

abbrev pub into_word : Bytes
into_word = 73 ∷ 78 ∷ 84 ∷ 79 ∷ []

abbrev pub select_word : Bytes
select_word = 83 ∷ 69 ∷ 76 ∷ 69 ∷ 67 ∷ 84 ∷ []

abbrev pub update_word : Bytes
update_word = 85 ∷ 80 ∷ 68 ∷ 65 ∷ 84 ∷ 69 ∷ []

abbrev pub delete_word : Bytes
delete_word = 68 ∷ 69 ∷ 76 ∷ 69 ∷ 84 ∷ 69 ∷ []

abbrev pub from_word : Bytes
from_word = 70 ∷ 82 ∷ 79 ∷ 77 ∷ []

abbrev pub begin_word : Bytes
begin_word = 66 ∷ 69 ∷ 71 ∷ 73 ∷ 78 ∷ []

abbrev pub commit_word : Bytes
commit_word = 67 ∷ 79 ∷ 77 ∷ 77 ∷ 73 ∷ 84 ∷ []

abbrev pub rollback_word : Bytes
rollback_word = 82 ∷ 79 ∷ 76 ∷ 76 ∷ 66 ∷ 65 ∷ 67 ∷ 75 ∷ []

abbrev pub explain_word : Bytes
explain_word = 69 ∷ 88 ∷ 80 ∷ 76 ∷ 65 ∷ 73 ∷ 78 ∷ []

abbrev pub int_word : Bytes
int_word = 73 ∷ 78 ∷ 84 ∷ []

abbrev pub integer_word : Bytes
integer_word = 73 ∷ 78 ∷ 84 ∷ 69 ∷ 71 ∷ 69 ∷ 82 ∷ []

abbrev pub text_word : Bytes
text_word = 84 ∷ 69 ∷ 88 ∷ 84 ∷ []

abbrev pub bool_word : Bytes
bool_word = 66 ∷ 79 ∷ 79 ∷ 76 ∷ []

abbrev pub boolean_word : Bytes
boolean_word = 66 ∷ 79 ∷ 79 ∷ 76 ∷ 69 ∷ 65 ∷ 78 ∷ []

abbrev pub primary_word : Bytes
primary_word = 80 ∷ 82 ∷ 73 ∷ 77 ∷ 65 ∷ 82 ∷ 89 ∷ []

abbrev pub key_word : Bytes
key_word = 75 ∷ 69 ∷ 89 ∷ []

abbrev pub values_word : Bytes
values_word = 86 ∷ 65 ∷ 76 ∷ 85 ∷ 69 ∷ 83 ∷ []

abbrev pub where_word : Bytes
where_word = 87 ∷ 72 ∷ 69 ∷ 82 ∷ 69 ∷ []

abbrev pub order_word : Bytes
order_word = 79 ∷ 82 ∷ 68 ∷ 69 ∷ 82 ∷ []

abbrev pub by_word : Bytes
by_word = 66 ∷ 89 ∷ []

abbrev pub desc_word : Bytes
desc_word = 68 ∷ 69 ∷ 83 ∷ 67 ∷ []

abbrev pub asc_word : Bytes
asc_word = 65 ∷ 83 ∷ 67 ∷ []

abbrev pub limit_word : Bytes
limit_word = 76 ∷ 73 ∷ 77 ∷ 73 ∷ 84 ∷ []

abbrev pub set_word : Bytes
set_word = 83 ∷ 69 ∷ 84 ∷ []

abbrev pub or_word : Bytes
or_word = 79 ∷ 82 ∷ []

abbrev pub and_word : Bytes
and_word = 65 ∷ 78 ∷ 68 ∷ []

abbrev pub null_word : Bytes
null_word = 78 ∷ 85 ∷ 76 ∷ 76 ∷ []

abbrev pub true_word : Bytes
true_word = 84 ∷ 82 ∷ 85 ∷ 69 ∷ []

abbrev pub false_word : Bytes
false_word = 70 ∷ 65 ∷ 76 ∷ 83 ∷ 69 ∷ []
