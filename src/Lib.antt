-- ===== src/Lib.antt =====
-- Verification of the core of Tarkka, a local-first research platform in Python (src/tarkka). The
-- program discovers, fetches and stores scientific sources, extracts claims from them, and answers
-- through a command line, HTTP and MCP. This library models the parts that decide: which network
-- requests may be made, how the frontier of a crawl moves, and what a context wallet lets be spent.
--
-- Acquisition models src/tarkka/domain/resource_acquisition.py. `Names` has `_normalize_scheme`,
-- `_normalize_domain` and the suffix test of `allows_uri`; `Policy` has ResourceAcquisitionPolicy
-- (`post_init` is `__post_init__`) with `allows_uri`, `allows_resolved_address` and `allows_retry`;
-- `Budget` has AcquisitionBudgetState, with `admits` for the conditions of `allows_request` behind
-- its argument checks. urllib.parse, ipaddress and the IDNA codec are the parameter `Library`.
--
-- Traversal models src/tarkka/domain/traversal.py. `Target` and `Checkpoint` have the two frozen
-- dataclasses with their constructors, `Frontier` has `enqueue` and `next_eligible`, `Transitions`
-- the methods that move one target. `replace` runs the constructor again, and so does the model.
-- `Lifecycle` is a specification of them as a table of moves; `Calls` runs sequences of calls. The
-- URI normalizer is the parameter `UriNormalizer`, of which nothing is assumed: its normal form need
-- not be one that it leaves alone. uuid5 and a UUID's text are parameters of `Environment`.
--
-- Robots models src/tarkka/domain/robots_rules.py, domain/crawl_access.py, domain/robots_cache.py and
-- application/robots_access.py. `Patterns` has `_pattern_matches` with the `str` searches that it
-- uses, `Canonical` the percent-encoding of patterns and targets, `Rules` RobotsRules with
-- `can_fetch` and `crawl_delay`, `Rules/Parsing` its `parse`, `Access` the decision about one target
-- and `Cache` the cached file. float() on a text is a parameter.
--
-- Crawl models src/tarkka/domain/rights_access.py (`Rights`), application/crawl_eligibility.py
-- (`Eligibility`) and RecursiveCrawlPolicyGate of application/recursive_crawl.py (`Gate`), which
-- calls Acquisition, Traversal, Robots and the two before. The robots cache and the checkpoint
-- repository are the record `Ports`; an evaluation returns the checkpoints that it saved.
-- `Coordinator` is RecursiveCrawlCoordinator of the same file; its protocols, which make the
-- requests, are the record `Network`. It returns the calls of the network that it made with its
-- result or error, and the network may answer by the calls before.
--
-- Wallet models src/tarkka/infrastructure/storage/json_context_wallet_store.py (`Store`) and
-- application/context_wallet.py (`Service`). The store is passed from call to call, as its lock
-- makes it; JSON text and failing disks are not modelled. UUID parsing and SHA-256 are parameters.
--
-- Batching models build_model_requests of src/tarkka/infrastructure/extraction/model_batching.py and
-- the requests of ports/model_claims.py. Its outer loop runs on fuel, for which the number of
-- passages is enough, since `start` grows at every turn.
--
-- Citations models the relations between works of src/tarkka/domain/citations.py, the relation queries
-- of infrastructure/storage/json_citation_repository.py (`Relations`) and the traversal over them of
-- application/citation_traversal.py (`Traversal`). `Resolution` has the resolutions of references: their
-- constructor, their transitions in the same catalog and resolve_reference of
-- application/citation_resolution.py; `Catalog` has the queries of references and the reuse of
-- relations, `Documents` resolve_document, whose calls leave a catalog behind also where they raise.
-- Identifiers models domain/identifiers.py, with str.lower and the
-- decimal digits of Unicode as the parameter `Unicode`. The loop over the depths is a recursion on the rounds
-- that max_depth leaves, and each loop inside it one over a list.
--
-- Jobs models application/scale.py and infrastructure/storage/json_job_store.py: `Store` is the store,
-- `Service` is JobService, `Calls` runs the calls of several workers. An access of the store holds its
-- lock, and a call that reads and writes has two or three: each read and each write is a step of its
-- own, a write goes by what its call read, and the steps of the workers interleave. The identifiers and
-- times that a call draws are its arguments.
--
-- Lineage models application/claim_lineage.py over the evidence records of domain/extraction.py
-- (`Model`, with the fields that are read): the module itself has the private methods of
-- ClaimLineageService, `Inspection` has `inspect`. The repositories behind its protocols are the record
-- `Readers`, and the two caches of a call are passed on. uuid5 is a parameter.
--
-- Prelude has the shared types: Boolean tests, lists, results, texts, dictionaries as association
-- lists. Tests runs the model on small inputs. The other loops of the modelled code run over finite
-- lists or texts and are structural recursions.
--
-- Not modelled: the front ends, the parsers of document formats, the PostgreSQL and JSON stores, the
-- clients of providers and models, retrieval, proof bundles and the library of documents.
--
-- Representation. A UUID is its 128-bit number; its text has fixed width, so it is ordered as the
-- number is. A `str` is the list of its code points. A count that a constructor has checked is a
-- natural number, and an `int` argument is an integer of either sign. The program only compares
-- floats and takes their maximum, so a non-negative finite float is its place in the order, which is
-- that of its bit pattern; `Float` has the other values too, for the checks that refuse them. A
-- frozenset is a list of its members. The `isinstance` tests hold by typing. An exception is an
-- `err`, with the fixed part of its message (field names in front of a message are written out, and
-- values that are formatted into it are left out).
pub mod Prelude
pub mod Robots
pub mod Crawl
pub mod Wallet
pub mod Batching
pub mod Citations
pub mod Identifiers
pub mod Jobs
pub mod Lineage
pub mod Acquisition
pub mod Traversal
mod Tests
