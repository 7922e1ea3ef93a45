-- ===== src/Lib.antt =====
-- KnowledgeFlow keeps captured notes and divides them into evidence that a person reviews. This
-- library models the curation core of the repository, and of the capture side the identifiers, the
-- requests, the inbox session, the version chains, the commits, the append of a version,
-- the listing and the intake of text.
--
-- The parts and their files:
--   Common: numbers, lists, text, exceptions as values (Result), and the values of a parsed JSON
--     document (Value). A Python `str` is the list of its code points (Text).
--   Ids: src/knowledgeflow_capture/ids.py. A UUID is a number below 2 ^ 128; Ids/Hex writes and
--     reads its hyphenated text. The clock and the random bytes stand in the record Environment.
--   Hashing: `hash_bytes` of src/knowledgeflow_capture/hashing.py. The digest of hashlib is an
--     argument.
--   Contracts: src/knowledgeflow_curation/contracts.py, a file for each class, and the digest and
--     time checks of src/knowledgeflow_capture/models.py (Require, Timestamp). In each file the
--     record is the class, `init` is the constructor with the checks of `__post_init__`, and
--     `as_mapping` and `from_mapping` are the methods of these names. The constructor takes parsed
--     values, so that a value of a wrong type is refused as the code refuses it; arguments that are
--     objects of other classes are typed, so the `isinstance` tests on them have no counterpart.
--     Collections reads lists, Cover is the test that ranges cover a scope, Against and
--     CurationMap/Compare are the comparisons of one object with another.
--   Segmentation: src/knowledgeflow_curation/segmentation.py. Utf8 is `bytes.decode` with strict
--     errors and the test on character boundaries, Lines the line spans, Markdown the boundaries
--     and the headings, Choose the end of a segment, Ranges the loop over the declared scope, and
--     Build the whole of `build_evidence_record`, with the digest and `id_factory` as arguments.
--   Capture: src/knowledgeflow_capture. Requests is the channels, the intents and the write requests
--     of models.py. Inbox is `InboxSession` of inbox.py: a Session is the fields of the object, the
--     operations are arguments, and Inbox/Write has the writes. Chain is
--     `_build_capture_version_chain` of store.py and the references of codec.py, over documents
--     whose reading is the record Codec. Commit is `_commit_candidate` (Commit/Initial) and
--     `_commit_append_candidate` (Commit/Append) of operations.py over the disk as far as a commit
--     reads it: each path is absent, holds the staged object or another. A record of faults says
--     which calls raise, and whether a rename that raises has worked; no other process changes the
--     paths meanwhile, since the commits run under the lock of the store. The hooks that tests use to
--     inject faults count as the calls beside them. Append is `_append_while_locked` over the chains
--     of a store: the scan for the request and the tails (Append), and the way to the commit, whose
--     disk decides what becomes of the chain (Append/Locked). A record AppendEnvironment has the new
--     identifiers, the hash of the sealed envelope, and the calls that may raise. Listing is the
--     filters, the order and the pages of `_run_list_captures`, with a cursor as the sort key that it
--     encodes, over candidates that stay the same from page to page. Intake is the binary branch of
--     `_iter_utf8_source_chunks` of durability.py, which takes the text of a capture in chunks.
--
-- How they interact: the inbox sends the requests of Requests and believes the commit states that
-- Commit gives. `build_evidence_record` decodes the source, checks it against the run of
-- Contracts, divides the declared scope, makes a segment and a locator for each range through the
-- constructors of Contracts, and compares the record with the run. A map refers to the locators of
-- the evidence, and a decision to the candidates of the map.
--
-- Loops: the lines use the length of the source as fuel, and the ranges the size of the declared
-- scope; each round moves on by a byte at least, so neither runs out. The pages of a listing have a
-- fuel of one for each listed candidate, since every page but an empty last one shows one. The loops
-- over lists and the search for a character boundary are structural.
--
-- The two regular expressions for headings and fences are recognisers over the text of one line.
-- A frozenset of offsets is a list, of which only the members are used.
--
-- Small differences from the code: `has_upper` knows the ASCII letters, which decides no more than
-- the wording of a refusal; `extract_unix_ts_ms` takes a UUID and no string;
-- `build_append_candidate` leaves out the tests on the previous envelope; and arguments are typed,
-- so that the refusal of a text that is no `str` in `_select_pending`, and the check of
-- `DigestResult` on its own fields, have no counterpart.
--
-- Not modelled: the rest of the store of captures with its recovery and locks, the schemas and the
-- YAML of codec.py, the operations around the commits, the curation operations, the routing to
-- knowledge bases, the git history, the review server and the command lines, which are input and
-- output or stand on a file system; the contracts of routes and knowledge bases.
pub mod Common
pub mod Ids
pub mod Capture
pub mod Contracts
pub mod Hashing
pub mod Segmentation
