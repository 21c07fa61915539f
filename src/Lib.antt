-- ===== src/Lib.antt =====
-- A model of mr-hide, a local proxy that keeps private data out of what coding assistants send to
-- their providers: it puts substitutes in the place of detected entities, remembers them for each
-- conversation, and restores them in what comes back.
--
-- The parts and their files (paths of the program are under src/mr_hide):
--   * Policy: policy.py. `decide_policy` says for each kind of content whether it is protected,
--     restored or passed on.
--   * Privacy.Models, Privacy.Overlap, Privacy.Normalization, Privacy.Scoring: privacy/models.py,
--     overlap.py, normalization.py, scoring.py. `resolve_overlaps` chooses among the detected spans;
--     `normalize_entity` gives the key of an entity.
--   * Privacy.Mapping: privacy/mapping.py. `MappingTable` and its checks; the allocation of
--     substitutes (Substitutes); `transform_text` (Transform), which calls `resolve_overlaps`,
--     `normalize_entity` and the table; `restore_text` (Restore). The lemmas are in Valid, Fresh,
--     Parts, Splice, Scan, Progress, Roundtrip and Growth.
--   * State.Models, State.Store, State.Repository, State.Lifecycle: state/models.py, store.py,
--     repository.py, lifecycle.py. A `ConversationState` has a revision and a mapping table; the
--     repository's `save` compares the revision under the lock of the store; `process` of the
--     lifecycle loads a state, calls `decide_policy`'s choice of `transform_text` or `restore_text`,
--     saves the next revision, and only then returns the text.
--   * State.Leaves, State.Codec: state/codec.py, and the derivation of keys of state/keys.py.
--     `vault_codec` is the `Codec` of the repository: `encrypt` writes the document of a state into a
--     sealed envelope, `decrypt` reads it with every check. What is relied on of Python and of the
--     package cryptography is `IsFaithful` (Codec.Laws).
--   * State.Keys: state/keys.py. `load_existing` and `get_or_create` over a keyring that can answer
--     anything.
--   * Runtime.Transaction: runtime/privacy.py. A transaction stages the texts of a request against
--     the mappings of one loaded state (`transform`), and saves them once (`commit`). Session puts
--     its beginning, its calls and its commit together.
--   * Json: the values, dictionaries and hooks of Python's json, whose functions are a `JsonLibrary`.
--   * Protocols: protocols. Documents and Tree have what the two modules json_body.py have in common;
--     Messages.Blocks and Messages.JsonBody are protocols/messages/json_body.py, Responses.Items and
--     Responses.JsonBody are protocols/responses/json_body.py. A function that calls the
--     transformation of texts is a `Walk` over the state that this keeps; Transactions puts the
--     transaction of runtime/privacy.py in its place. Contract has the reasoning about walks, Released
--     and Asked of each protocol say what a body is that has been transformed.
--   * Proxy.Headers: proxy/headers.py. The filters of forwarded headers.
--   * Clients.Base, Clients.Claude: clients/base.py, claude.py. What a client is launched with;
--     the splitting of a URL is a parameter.
--   * Fixtures: test data.
--   * Errors: the exceptions with their reason codes. A function that can raise returns a `Result`.
--   * Prelude: shared lemmas on lists, texts, dictionaries and decimal numbers.
--
-- A text is a list of code points, a score a count of millionths. The Unicode tables (NFKC,
-- casefold, isalnum, upper, whitespace) and the text of IPv6 addresses are parameters: they are
-- Python's, not the program's. The token scorer is a parameter too, with every reply that Python
-- lets an object give.
--
-- A call of the repository gets an `Env`: what the operating system answers at each point where the
-- store can fail, and what other processes do to the files before the call holds the lock. An
-- operation of the lifecycle gets a `World`, with an `Env` for each call and a reading of the clock
-- for each use of it. The repository takes any codec, with `IsReversible` as the only law that is
-- used, and `vault_codec` keeps it; what the key provider answers and the reading of UUIDs are
-- parameters.
--
-- Bounds: the allocation loops have the 256 attempts of the source, and fail as it does when they
-- are used up. Decimal numbers have one unit of fuel more than their value, and need one for each
-- digit. A content of blocks has fuel for one more level than a body can have, and each level of
-- blocks takes one unit.
--
-- Not modelled: the detectors (a third-party engine), processes, sockets, files, the command line,
-- the bindings, the preparation of a runtime, the protocols' streams and handlers, and forwarding
-- itself.
pub mod Prelude
pub mod Errors
pub mod Policy
pub mod Json
pub mod Privacy
pub mod State
pub mod Runtime
pub mod Proxy
pub mod Clients
pub mod Fixtures
pub mod Protocols
