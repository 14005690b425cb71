-- ===== src/Searchd/Replies.antt =====
-- The reply of `Process`, in terms of the rows of the database.
use looka.Common.{
  ℕ, zero, suc, ◌+◌, ◌^◌, ◌<◌, List, [], ◌∷◌, ◌++◌, Bool, true, false, if◌then◌else◌, length, map,
  take, drop, filterb, All, All-mono, ◌≡◌, ◌≤◌, refl, ap, ◌∙◌, arith, length-drop,
}
use looka.Common.Bytes.{Bytes, codes, bytes_beq, to_lower_char}
use looka.Common.Int.{ℤ, pos, wrap_int-pos}
use looka.File.{until_zero}
use looka.Common.Result.{Result, ok}
use looka.Attr.{DocAttr}
use looka.Indexer.{MysqlField, Columns, Doc, make_attr}
use looka.Indexer.Rows.{HasColumns, Clashless}
use looka.Indexer.Summary.{row_doc, StringsFit, row_doc-DocFits}
use looka.Request.{LookaRequest}
use looka.Searchd.{Index, search}
use looka.Searchd.Answers.{index_of_rows, answers, search-rows_made}
use looka.Searchd.Names.{ColumnsFit, name_tables}
use looka.Searchd.Packed.{
  with_text, IsLocated, json_rows, xml_rows, json_docs-json_rows, xml_docs-xml_rows,
}
use looka.Searchd.Packer.{
  JsonLib, XmlLib, ResultPacker, basic_packer, json_packer, xml_packer, get_result_packer,
  pack_result, pack_summary, json_summary, xml_summary, pack_json, pack_xml,
}
use looka.Searchd.Passes.{DocFits}
use looka.Searchd.Process.{Costs, extra_pairs, process_query}
use looka.Searchd.Capacity.{All-map, length-map}
use looka.Segmenter.{SegmentToken}
use looka.StrUtils.{int_to_string}

-- A format is named without regard to case, up to the first zero byte.
abbrev pub is_format : Bytes → Bytes → Bool
is_format name format = bytes_beq (map to_lower_char (until_zero format)) name

abbrev pub microseconds : ℤ → Bytes
microseconds t = int_to_string t ++ codes "us"

module _ {J X : Type 0} (json : JsonLib J) (xml : XmlLib X) (c : Columns) (costs : Costs)
    (query : Bytes) (total : ℕ) (ds : List Doc) where
  -- The JSON text: the query, the number of documents, the number of all that were found, what the
  -- parts of the query took, the documents, and what the packing took.
  abbrev pub json_reply : Bytes
  json_reply =
      let a = json.set_string json.null_value (codes "query") query in
      let b = json.set_string a (codes "doc_num") (int_to_string (pos (length ds))) in
      let d = json.set_string b (codes "total_found") (int_to_string (pos total)) in
      let e = json.set_string d (codes "parse_cost") (microseconds costs.parse) in
      let f = json.set_string e (codes "segment_cost") (microseconds costs.segment) in
      let g = json.set_string f (codes "search_cost") (microseconds costs.search) in
      let docs = json_rows json c ds json.null_value json.null_value in
      let h = json.set_value g (codes "docs") docs in
      json.to_styled_string (json.set_string h (codes "pack_cost") (microseconds costs.pack))

  -- The XML text, with the same members; a text ends at its first zero byte.
  abbrev pub xml_reply : Bytes
  xml_reply =
      let a = with_text xml (xml.new_node (codes "display")) (codes "query") query in
      let b = with_text xml a (codes "doc_num") (int_to_string (pos (length ds))) in
      let d = with_text xml b (codes "total_found") (int_to_string (pos total)) in
      let e = with_text xml d (codes "parse_cost") (microseconds costs.parse) in
      let f = with_text xml e (codes "segment_cost") (microseconds costs.segment) in
      let g = with_text xml f (codes "search_cost") (microseconds costs.search) in
      let h = with_text xml g (codes "pack_cost") (microseconds costs.pack) in
      xml.dump_format_memory_enc (xml.add_child h (xml_rows xml c ds (xml.new_node (codes "docs"))))

  -- The text of a result in a format: empty, but for json and xml.
  unfoldable pub reply_of : Bytes → Bytes
  unfolding until_zero int_to_string
  reply_of format =
      if is_format (codes "json") format
      then json_reply
      else if is_format (codes "xml") format
      then xml_reply
      else []

  pack_summary-pairs :
      length ds < 2 ^ 31
      → total < 2 ^ 31
      → pack_summary query (length ds) (extra_pairs costs total)
        ≡ (codes "query", query)
          ∷ (codes "doc_num", int_to_string (pos (length ds)))
          ∷ (codes "total_found", int_to_string (pos total))
          ∷ (codes "parse_cost", microseconds costs.parse)
          ∷ (codes "segment_cost", microseconds costs.segment)
          ∷ (codes "search_cost", microseconds costs.search)
          ∷ []
  unfolding pack_summary extra_pairs
  pack_summary-pairs few small = rw (wrap_int-pos (length ds) few, wrap_int-pos total small) refl

  module _ (tables junk : Bytes) (fit : ColumnsFit c) (located : IsLocated c)
      (fits : All (DocFits c) ds) (few : length ds < 2 ^ 31) (small : total < 2 ^ 31) where
    abbrev docs : List DocAttr
    docs = map (make_attr junk) ds

    pack_json-json_reply :
        pack_json json c
          (pack_summary query (length ds) (extra_pairs costs total))
          docs
          (name_tables c tables)
          costs.pack
        ≡ ok json_reply
    pack_json-json_reply = rw (pack_summary-pairs few small) (
        unfold pack_json json_summary in
        rw (json_docs-json_rows c tables junk fit located json ds _ _ fits) refl)

    pack_xml-xml_reply :
        pack_xml xml c
          (pack_summary query (length ds) (extra_pairs costs total))
          docs
          (name_tables c tables)
          costs.pack
        ≡ ok xml_reply
    pack_xml-xml_reply = rw (pack_summary-pairs few small) (
        unfold pack_xml xml_summary until_zero in
        rw (xml_docs-xml_rows c tables junk fit located xml ds _ fits) refl)

    pack_result-reply_of :
        (format : Bytes)
        → pack_result json xml
            (get_result_packer format)
            c
            query
            docs
            (name_tables c tables)
            (extra_pairs costs total)
            costs.pack
          ≡ ok (reply_of format)
    pack_result-reply_of format =
        unfold get_result_packer reply_of until_zero in
        by_format (is_format (codes "json") format) (is_format (codes "xml") format)
      where
        pack : ResultPacker → Result Bytes
        pack packer =
            pack_result json xml packer c query docs (name_tables c tables)
              (extra_pairs costs total) costs.pack

        doc_num :
            pack_summary query (length docs) (extra_pairs costs total)
            ≡ pack_summary query (length ds) (extra_pairs costs total)
        doc_num =
            ap (λ n. pack_summary query n (extra_pairs costs total))
              (length-map (make_attr junk) ds)

        by_format :
            (is_json is_xml : Bool)
            → pack (if is_json then json_packer else if is_xml then xml_packer else basic_packer)
              ≡ ok (if is_json then json_reply else if is_xml then xml_reply else [])
        by_format true is_xml = unfold pack_result in rw (doc_num) pack_json-json_reply
        by_format false true = unfold pack_result in rw (doc_num) pack_xml-xml_reply
        by_format false false = unfold pack_result in refl

length-filterb {ℓ} : {A : Type ℓ} (p : A → Bool) (xs : List A) → length (filterb p xs) ≤ length xs
length-filterb p [] = omega arith
length-filterb p (x ∷ xs) = ground (arith, length-filterb p xs)

length-take_le {ℓ} : {A : Type ℓ} (n : ℕ) (xs : List A) → length (take n xs) ≤ length xs
length-take_le zero xs = omega arith
length-take_le (suc n) [] = omega arith
length-take_le (suc n) (x ∷ xs) = omega (arith, length-take_le n xs)

take-map {ℓ κ} :
    {A : Type ℓ} {B : Type κ} (f : A → B) (n : ℕ) (xs : List A)
    → take n (map f xs) ≡ map f (take n xs)
take-map f zero xs = refl
take-map f (suc n) [] = refl
take-map f (suc n) (x ∷ xs) = ap (◌∷◌ (f x)) (take-map f n xs)

drop-map {ℓ κ} :
    {A : Type ℓ} {B : Type κ} (f : A → B) (n : ℕ) (xs : List A)
    → drop n (map f xs) ≡ map f (drop n xs)
drop-map f zero xs = refl
drop-map f (suc n) [] = refl
drop-map f (suc n) (x ∷ xs) = drop-map f n xs

map-map {ℓ κ μ} :
    {A : Type ℓ} {B : Type κ} {C : Type μ} (f : B → C) (g : A → B) (xs : List A)
    → map (λ x. f (g x)) xs ≡ map f (map g xs)
map-map f g [] = refl
map-map f g (x ∷ xs) = ap (◌∷◌ (f (g x))) (map-map f g xs)

module _ {ℓ κ} {A : Type ℓ} (P : A → Type κ) where
  All-take : (n : ℕ) (xs : List A) → All P xs → All P (take n xs)
  All-take zero xs h = tt
  All-take (suc n) [] h = tt
  All-take (suc n) (x ∷ xs) h = (h.0, All-take n xs h.1)

  All-drop : (n : ℕ) (xs : List A) → All P xs → All P (drop n xs)
  All-drop zero xs h = h
  All-drop (suc n) [] h = tt
  All-drop (suc n) (x ∷ xs) h = All-drop n xs h.1

  All-if : (b : Bool) (x : A) (xs : List A) → P x → All P xs → All P (if b then x ∷ xs else xs)
  All-if true x xs h hs = (h, hs)
  All-if false x xs h hs = hs

  All-filterb : (f : A → Bool) (xs : List A) → All P xs → All P (filterb f xs)
  All-filterb f [] h = tt
  All-filterb f (x ∷ xs) h = All-if (f x) x (filterb f xs) h.0 (All-filterb f xs h.1)

process_query-ok :
    {J X : Type 0} (json : JsonLib J) (xml : XmlLib X) (float_to_string : ℕ → Bytes)
    (segment : Bytes → List SegmentToken) (source : Columns) (index : Index) (costs : Costs)
    (req : LookaRequest) (total : ℕ) (docs : List DocAttr) (reply : Bytes)
    → search float_to_string index req (map (λ s. s.str) (segment req.query)) ≡ ok (total, docs)
    → pack_result json xml
        (get_result_packer req.dataformat)
        source
        req.query
        docs
        index.attr_names
        (extra_pairs costs total)
        costs.pack
      ≡ ok reply
    → process_query json xml float_to_string segment source index costs req
      ≡ ok (reply, req.dataformat)
unfolding process_query
process_query-ok json xml float_to_string segment source index costs req total docs reply e p =
    rw (process_query, e, p) refl

module _ {J X : Type 0} (json : JsonLib J) (xml : XmlLib X) (c : Columns) (atof : Bytes → ℕ)
    (segment : Bytes → List SegmentToken) (junk tables : Bytes) (float_to_string : ℕ → Bytes)
    (costs : Costs) (rows : List (List MysqlField)) (req : LookaRequest) where
  abbrev pub query_tokens : List Bytes
  query_tokens = map (λ s. s.str) (segment req.query)

  -- The rows that answer the query.
  abbrev pub found_rows : List (List MysqlField)
  found_rows = filterb (answers c atof segment junk tables float_to_string req query_tokens) rows

  -- The reply that lists `limit` of the rows that answer the query, from number `offset` on.
  abbrev pub reply_of_rows : ℕ → ℕ → Bytes
  reply_of_rows o l =
      reply_of json xml c costs req.query (length found_rows)
        (map (row_doc c atof segment) (take l (drop o found_rows))) req.dataformat

  -- On the index of rows that have the configured columns, fewer than 2 ^ 31, whose strings fit
  -- the attribute object and none of whose tokens shares its id with another token of the query,
  -- and with number and string columns whose names are not empty and differ from the other
  -- columns', `Process` returns. In the formats json and xml the reply has the query, the number of
  -- rows that answer the query, and of `limit` of these, from number `offset` on, under the name of
  -- each number column and of each string column the value that the row's last field of that name
  -- has, and the number of rows that are listed; in another format it is empty. The `offset` and
  -- the `limit` are not negative and have a sum below 2 ^ 31.
  pub process_query-rows :
      (o l : ℕ)
      → length rows < 2 ^ 31
      → HasColumns c atof segment junk rows []
      → ColumnsFit c
      → IsLocated c
      → All (StringsFit c atof segment) rows
      → All (λ t. Clashless c atof segment junk t rows) query_tokens
      → req.offset ≡ pos o
      → req.limit ≡ pos l
      → o + l < 2 ^ 31
      → process_query json xml float_to_string segment c
          (index_of_rows c atof segment junk tables float_to_string req rows)
          costs
          req
        ≡ ok (reply_of_rows o l, req.dataformat)
  process_query-rows o l small cols fit located strings apart offset limit room =
      process_query-ok json xml float_to_string segment c
        (index_of_rows c atof segment junk tables float_to_string req rows) costs req
        (length found_rows)
        (map (make_attr junk) (map (row_doc c atof segment) (take l (drop o found_rows))))
        (reply_of_rows o l)
        (search-rows_made c atof segment junk tables float_to_string req rows query_tokens small
            cols fit strings o l offset limit room apart
          ∙ ap ok (
              cc (length-map (λ fs. make_attr junk (row_doc c atof segment fs)) found_rows, paged)))
        (pack_result-reply_of json xml c costs req.query (length found_rows) _ tables junk fit
          located fits (omega (arith, page_few)) (omega (arith, found_few)) req.dataformat)
    where
      paged :
          take l (drop o (map (λ fs. make_attr junk (row_doc c atof segment fs)) found_rows))
          ≡ map (make_attr junk) (map (row_doc c atof segment) (take l (drop o found_rows)))
      paged =
          ap (take l) (drop-map _ o found_rows)
          ∙ take-map _ l (drop o found_rows)
          ∙ map-map (make_attr junk) (row_doc c atof segment) _

      found_few : length found_rows < 2 ^ 31
      found_few = omega (
        arith,
        small,
        length-filterb (answers c atof segment junk tables float_to_string req query_tokens) rows,
      )

      page_few : length (map (row_doc c atof segment) (take l (drop o found_rows))) < 2 ^ 31
      page_few = omega (
        arith,
        found_few,
        length-map (row_doc c atof segment) (take l (drop o found_rows)),
        length-take_le l (drop o found_rows),
        length-drop o found_rows,
      )

      fits : All (DocFits c) (map (row_doc c atof segment) (take l (drop o found_rows)))
      fits = All-map (DocFits c) (row_doc c atof segment) _ (
          All-take _ l _ (
            All-drop _ o _ (
              All-filterb _ _ rows
                (All-mono _ _ rows (λ fs s. row_doc-DocFits c atof segment fs s) strings))))
