-- ===== src/Lib.antt =====
-- looka: a full-text search engine. An indexer reads the rows of a database, cuts their text
-- columns into tokens and writes posting lists and attributes to files; a daemon loads the files
-- and answers queries over HTTP.
--
-- How the parts work together. `looka_indexer` (src/indexer) reads its settings from a
-- configuration file (src/looka_config_*.cpp), fetches rows, and for each row calls `ProcessDoc`,
-- which segments the text columns (src/looka_segmenter.cpp), adds one entry for each token to a
-- LookaInverter (src/looka_inverter.hpp) and one attribute record to the summary. The inverter is
-- written by src/looka_file.cpp. `looka_searchd` (src/searchd) reads the files back. Its HTTP server
-- (src/http_frame) hands each request to `LookaSearchd::Process`, which parses the parameters
-- (src/searchd/looka_request.cpp), segments the query, intersects the posting lists of its tokens
-- (src/looka_intersect.cpp), drops documents by the filter and returns a page of the rest.
--
-- Files, by the code that they model:
--   Common, Words: numbers, lists, bytes, integers of 32 bits, results, little-endian words.
--   Str2id: src/looka_str2id.cpp. Types, Attr: src/looka_types.hpp and .cpp; Attr has the tables
--     of strings that CreateAttrNames and ProcessDoc lay out in memory and GetString reads.
--     Types/Hits: the hits of an entry, which GetHits walks through.
--   StrUtils: src/looka_string_utils.cpp, and the trimming loop that the configuration parser, the
--     segmenter and the request parser each have. Children: Trim, Split, Numbers, Url,
--     and Printf for StringPrintf and code_convert.
--   Inverter: src/looka_inverter.hpp. Intersect: src/looka_intersect.cpp; its children Scan, Seek
--     and Tokens go from one posting list to several, and to the tokens of a query.
--   Segmenter: src/looka_segmenter.cpp. Indexer: src/indexer/looka_indexer.cpp, with children for
--     the entries of one row (Postings), its tokens (Tokens) and all rows (Rows), the hits of an
--     entry (Hits), the attributes of the rows (Values, Summary), and DoIndex up to the files
--     (Build).
--   File: src/looka_file.cpp, the index file; Index and ReadBack are about its round trip.
--     File/Summary: the four summary files; Objects and RoundTrip are about reading them back.
--   Config: src/looka_config_parser.cpp; Config/Sources: the three classes of settings.
--   Http: src/http_frame, with Parser, Reply, Server and Send; Pieces, Head, Content and Whole are
--     about the reading of a request, Returns about its end, Serve about a whole connection.
--   Request: src/searchd/looka_request.cpp; Filter and FilterText are about the map of the filter
--     and the text it is parsed from.
--   Searchd: the search of src/searchd/looka_searchd.cpp, and Init (Startup). Search and Page are
--     about what it returns, Names and Passes about the filter, Indexed and Answers about the search
--     on the index of given rows, Reloaded about what of an inverter it depends on, Capacity and
--     Served about the way from the rows through the files to the answer. Packer and Process:
--     src/searchd/looka_result_packer.cpp and Process; Packed and Replies are about what they put
--     into a reply.
--   Mysql: src/looka_mysql_wrapper.cpp; Coherent and Steps are about the states of a
--     wrapper, Ends about its end.
--   Programs: how the main functions of src/indexer and src/searchd pair indexes with sources.
--   Tests: the theorems at concrete inputs.
--
-- Conventions. A string is a list of byte values. A result that the code reports as false or -1 is
-- `none`; a read outside of an object, and an exception, is `fault`; a model out of fuel is
-- `stuck`. A std::map is an association list in the order of its keys, an unordered map one in some
-- order. Integers wrap where the code's do: the sizes of the index file and of a reply are an `int`,
-- which is negative from 2 ^ 31 on, and the objects of strings have no bytes where their size is no
-- `int`. What theorems say of these is for sizes below 2 ^ 31.
--
-- Fuel. LookaIntersect::Seek has the number of documents of its first list, and one round more: a
-- restart drops a document of that list. The search loop has the length of the summary and one:
-- the id grows. Reading the index file has the file's length: a round reads sixteen bytes at
-- least. A connection has the number of its bytes and one. GetHits has the size of the hits and
-- one: a round moves on by two bytes at least. SqlDismissResult has the results that the server
-- has left, and one. SplitString has the length of its string and one. StringPrintfV has the
-- largest size of its buffer: each round has a longer one.
--
-- Parameters. The segmenter's library (css), atof, printf with %f, vsnprintf, iconv, the contents
-- of files, the bytes that malloc leaves in memory, the server's clock, the handler of a request,
-- what a socket takes of each write, and the calls of jsoncpp, libxml2 and the MySQL client are
-- arguments of the definitions that use them.
--
-- Not modelled: jsoncpp, libxml2 and the MySQL client themselves, sockets, epoll and
-- threads, logging, the options and signals of the main programs, the index printer, and memory
-- that is freed.
pub mod Common
pub mod Str2id
pub mod Words
pub mod Types
pub mod StrUtils
pub mod Attr
pub mod Inverter
pub mod Intersect
pub mod Http
pub mod Mysql
pub mod Programs
pub mod Request
pub mod Segmenter
pub mod Indexer
pub mod Searchd
pub mod File
pub mod Config
pub mod Tests
