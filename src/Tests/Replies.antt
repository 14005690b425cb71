-- ===== src/Tests/Replies.antt =====
-- A concrete query on concrete rows, answered in words that list the calls of the libraries.
use looka.Common.{ℕ, zero, suc, [], ◌∷◌, ◌++◌, some, get_elem?, ◌≡◌, refl, arith}
use looka.Common.Bytes.{Bytes, codes}
use looka.Common.Int.{pos}
use looka.Common.Result.{ok}
use mathlib.Core.Path.{subst}
use looka.Attr.{attr_uint, attr_string}
use looka.Indexer.{is_in_fields}
use looka.Searchd.Answers.{index_of_rows}
use looka.Searchd.Names.{locate}
use looka.Searchd.Packed.{IsLocated}
use looka.Searchd.Packer.{JsonLib, XmlLib}
use looka.Searchd.Process.{Costs, process_query}
use looka.Searchd.Replies.{reply_of_rows, process_query-rows}
use looka.Request.{LookaRequest}
use looka.StrUtils.{uint_to_string}
use looka.Tests.Rows.{columns_fit, strings_fit, has_columns}
use looka.Tests.Stores.{letters, columns, rows, no_floats, request, float_text, clashless}

-- Values that are the text of the calls that made them.
abbrev json_text : JsonLib Bytes
json_text = record {
  null_value = [];
  set_string = λ j k v. j ++ (k ++ (codes "=" ++ v));
  set_uint = λ j k n. j ++ (k ++ (codes "=" ++ uint_to_string n));
  set_value = λ j k v. j ++ (k ++ (codes "=" ++ v));
  append = λ j v. j ++ (codes "," ++ v);
  to_styled_string = λ j. j;
}

abbrev xml_text : XmlLib Bytes
xml_text = record {
  new_node = λ k. k;
  new_text_child = λ x k v. x ++ (k ++ (codes "=" ++ v));
  add_child = λ x y. x ++ (codes "," ++ y);
  dump_format_memory_enc = λ x. x;
}

abbrev costs : Costs
costs = record { parse = pos 1; segment = pos 2; search = pos 3; pack = pos 4 }

abbrev query_request : LookaRequest
query_request = record request { query = codes "b" }

the_name : {key : Bytes} → some (codes "n") ≡ some key → codes "n" ≡ key
the_name e = cc

located : IsLocated columns
unfolding IsLocated locate is_in_fields
located = (number, text)
  where
    number :
        (i : ℕ) (key : Bytes)
        → get_elem? (codes "n" ∷ []) i ≡ some key
        → locate columns key ≡ some (attr_uint, i)
    number zero key e = subst (λ k. locate columns k ≡ some (attr_uint, 0)) (the_name e) refl
    number (suc i) key e = absurd (cc)

    text :
        (i : ℕ) (key : Bytes)
        → get_elem? {A = Bytes} [] i ≡ some key
        → locate columns key ≡ some (attr_string, i)
    text i key e = absurd (cc)

process_query-rows_example :
    process_query json_text xml_text float_text letters columns
      (index_of_rows columns no_floats letters [] [] float_text query_request rows)
      costs
      query_request
    ≡ ok (
      reply_of_rows json_text xml_text columns no_floats letters [] [] float_text costs rows
          query_request 0 1,
      query_request.dataformat,
    )
process_query-rows_example =
    process_query-rows json_text xml_text columns no_floats letters [] [] float_text costs rows
      query_request 0 1 (omega arith) has_columns columns_fit located strings_fit (clashless, tt)
      refl refl (omega arith)
