-- ===== src/Lib.antt =====
-- A verification library for fxi, a code search engine: a model of its index codecs, of its bloom
-- filters and the trigram lookup that they speed up, of the way a query is read, planned and narrowed
-- to a set of documents, of the tokenizer, and of the way changes to files are collected and brought
-- into the index, with the theorems that make these correct.
--
-- The parts and how they interact. A query string is parsed to a tree with filters and options
-- (Query), planned as a sequence of narrowing steps with a verification (QueryPlan), and executed
-- against the index (QueryExecutor::execute_plan) to the set of documents whose content is then
-- verified. The index is a number of segments, each with a bloom filter of its trigrams, which a lookup
-- asks before it reads the segment's postings. It keeps its postings as delta-coded varints and its positions in a codec of the
-- same kind. The daemon watches the tree: its debouncer collects the changes to files, a batch of them
-- is handed on once the tree is quiet, and a delta segment brings the batch into the index: documents
-- of deleted and modified files become tombstones, and created and modified files are tokenized and
-- added.
--
-- Which file models what, with paths from the repository's root:
-- - Base and its children: Boolean tests on numbers, lists over native numbers, association lists and
--   sets over keys that can be compared, maps that number the entries of a list, bit operations and
--   the recursion on a number that shrinks. They model no code.
-- - Encoding/Varint, Encoding/Delta, Encoding/Positions: src/utils/encoding.rs. A byte is a number,
--   a buffer is a list; a written value is appended to the buffer that stands there, as `&mut Vec`
--   is. decode_varint returns the value and the number of bytes, as in the source. Encoding/Bitmap is
--   an interface for the part of the roaring package that the decoders use, and Encoding/Bitmap/Lists
--   shows that its laws can hold. Words keep their width: shifts and sums are taken modulo 2 ^ 32 or
--   2 ^ 64, or saturate, where the source's do.
-- - Bloom: src/utils/bloom.rs. A word is a number; setting a bit is the bitwise or with a power of
--   two. The two hashers of the ahash package are a parameter.
-- - Index/Segments: get_trigram_docs_with_bloom of src/index/reader.rs. The record Segment is a
--   segment's filter and posting lists. sort_by_key is a stable insertion sort.
-- - Index/Documents: the languages, flags and documents of src/index/types.rs, and docs.bin as
--   write_documents_atomic of src/index/writer.rs writes it and read_documents of
--   src/index/reader.rs reads it.
-- - Index/Delta: DeltaSegmentWriter of src/index/writer.rs, and the loops of
--   apply_incremental_update of src/server/daemon_core.rs that drive it. Hash maps are association
--   lists (Base/Keys). What reads a file, process_file_for_delta, is a parameter.
-- - Server/Changes: ChangeBatch of src/server/watcher.rs. Its hash sets are lists.
-- - Server/Debouncer: src/server/debouncer.rs, and the loop of run_watcher_thread of
--   src/server/daemon_core.rs. The clock is an argument, the order in which a hash map is drained is a
--   parameter, and so are the state of the disk and the ignore rules. FileState is its kind, since
--   nothing reads its time.
-- - Server/Protocol: the framing of messages in src/server/protocol.rs. The serde_json package is a
--   parameter, Json, with the law that parsing keeps the keys of printed fields, and strings; a float
--   may come back as another. The envelope of a message and the reading of its id are modelled.
-- - Utils/Trigram: src/utils/trigram.rs, with bytes_to_trigram and trigram_to_bytes of
--   src/index/types.rs. set_full, collect_full, test_and_set and collect_blocks are the methods of the
--   two bitsets; the order in which the ahash package gives a set's items is a parameter, HashOrder.
-- - Utils/Tokenizer: the functions of src/utils/tokenizer.rs that give positions. A text is its code
--   points, and its bytes are their encoding in UTF-8.
-- - Index/Phrases: get_token_positions and resolve_phrase_positional of src/index/reader.rs, on the
--   decoders of Encoding/Positions. Binary searches of sorted data are searches; as_bitmap joins the
--   two interfaces of bitmaps, that of the decoders and that of query execution.
-- - Index/Postings: the posting lookups of trigrams and tokens of src/index/reader.rs. Dictionaries are
--   lists of their entries. get_docs and get_docs_intersect stand for the lookups of trigrams and of
--   tokens, which differ in the key only; segment_of makes the Segment of Index/Segments from them.
-- - Index/SegmentFiles: src/index/segment_io.rs, and read_trigram_dict, read_token_dict, read_line_maps
--   and read_bloom_filter of src/index/reader.rs. A file is its bytes, a BTreeMap its entries in order;
--   what the operating system can fail at is left out. The decoding of UTF-8 is a parameter. Its Flat
--   and Chunks are write_trigram_index_flat and the trigrams of process_and_write_segment, of
--   src/index/writer.rs; the groups that are encoded in parallel are a list.
-- - Index/Compaction: src/index/compact.rs. The dictionaries of the segments are lists of entries that
--   have been read; the same merge stands for trigrams and for tokens. The sorting of the standard
--   library is an insertion sort.
-- - Query/Text: strings as lists of code points, with the functions of the standard library that the
--   parser uses. What depends on Unicode tables or on floats is a parameter (Std), which Query/Ascii
--   fills with the tables for ASCII.
-- - Query/Syntax, Query/Parser, Query/Parser/Date, Query/Parser/Fields: src/query/parser.rs. The
--   state of QueryParser is what is left of the input, the filters and the options.
-- - Query/Plan, Query/Planner, Query/Planner/Prefix: src/query/planner.rs. The functions of
--   src/utils/tokenizer.rs and src/utils/trigram.rs that it calls are the interface Tokenizer.
-- - Query/Executor: execute_plan, verify_excluded_docs and apply_filter of src/query/executor.rs. The
--   bitmaps are the interface Sets with the documented laws of roaring, filled by Query/Sets/Lists;
--   the index is the interface Reader. Its laws say that valid_doc_ids holds the valid documents, that
--   no file has changed since it was cached, and that the positional lookup answers the same for a
--   document whether or not it is restricted to candidates. Query/Executor/Index fills it with the
--   lookups of Index, the tests of Query/Filter and the matches of Query/Content.
--   Query/Executor/Meaning is the specification: what a plan means for one document.
-- - Query/Filter: the tests of apply_filter on a document, parse_language, and
--   contains_ignore_ascii_case and filename_matches_terms of src/query/executor.rs. The globset package
--   and paths are the parameter Globs; meets is what the executor takes from the index under this name.
-- - Query/Content: has_match, verify_content_static and the functions that they call, of
--   src/query/executor.rs: whether a content matches a verification, and the matches in its lines. The
--   searches of the memchr package and the regex package are parameters, Memmem and Regexes.
--
-- Bounds and fuel. encode_varint recurs on its value, which shrinks. The decoders' loops recur on the
-- bytes, or on a shift that grows to the word's width. The functions of the parser that call one
-- another take fuel, and parse_query gives them eight rounds for each character and five more: every
-- call of parse_or, parse_and and the loops stands behind a character that was consumed, or ends.
-- The loop over the
-- bits of a word has 64 turns, one for each bit. The loop over
-- the line breaks in front of a match has a turn for every byte of the content, and ends because none
-- is left (Query/Content/Hits). The nesting of plans and of queries is structural. All other loops are recursion on the list that
-- they go through.
--
-- What is not modelled: scoring (floats), the order and the context of matches,
-- the token files of the first build of an index, the
-- line maps and positions in a compaction, the rest of the reader, the rules by which the watcher ignores files, the
-- daemon's requests, the terminal interface, the command line and all input and
-- output: a file that is read or written is its bytes, and apply_incremental_update begins with the
-- index that it has read. execute_plan's Result is left out, since no step of it
-- fails. Recursion depth and memory are not bounded in the model.
pub mod Base
pub mod Bloom
pub mod Encoding
pub mod Index
pub mod Query
pub mod Server
pub mod Utils
