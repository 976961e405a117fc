-- ===== src/Lib.antt =====
-- A model of the decision logic of the nplg-dspace-mcp server: which requests it lets in, what it does when its
-- upstream fails, which bodies it parses, what it keeps on its disk and how it cuts a page into tiles.
--
-- The parts, and how they meet. A request passes the checks of the middleware (Http), its gates (Admission) and the JSON preflight (Preflight) before the
-- server library parses it. A tool that calls the upstream does so under a permit of the circuit breaker
-- (Resilience), at an address that its resolution admitted (Network). What it downloads is published into a store with a retention policy (Storage), which reserves
-- the worst case before it starts and prunes what it may delete. Inline answers share one byte budget (Resource),
-- and page images are cut into tiles (Tiles). Each critical section under a lock, and each stretch of a coroutine
-- between two awaits, is one step; an interleaving is a sequence of steps.
--
-- - Prelude: numbers, lists, results, dictionaries and `Floats`, the operations on doubles that the code calls. A
--   double is a type parameter with its operations; nothing is assumed of them but where a theorem names the
--   assumption. A number that Python leaves unchecked by type is an `Argument`, an integer or something else.
-- - Admission: src/nplg_mcp/admission.py. Gate is `AdmissionGate`, Principals `PrincipalAdmission`, Paths
--   `PathAdmissionMiddleware` with its runs in Paths/Flight. Workers is src/nplg_mcp/bounded_work.py, with its
--   runs in Workers/Lifetime.
-- - Resilience: src/nplg_mcp/resilience.py. Policy is `UpstreamGuardPolicy`, Deadline the `MonotonicDeadline` of
--   src/nplg_mcp/contracts/base.py, Guard `UpstreamGuard` up to `admit`, Complete `complete_attempt`, Permits
--   `AttemptPermit` and `_PermitContext`. Runs and Runs/Safety hold the runs of a guard with its permits, and Wedge
--   the half-open state. The readings of the clock and of the random source, and whether the observer of state
--   changes raises a cancellation, are what the environment answers to a call.
-- - Preflight: src/nplg_mcp/json_preflight.py. Limits holds the limits, Scan the numbers, Text the strings, Parser
--   the frames and the loop. A payload is a list of bytes, and a state keeps the bytes not yet read. The loop has fuel
--   for one round more than the payload has bytes; each round reads a byte, and Progress and Progress/Rounds show
--   that this is enough. A string's loop has the bytes left as its fuel. Whether
--   a number token is a finite double is a parameter. Grammar is the grammar of RFC 8259 as relations, against
--   which Grammar/Lexical, Grammar/Strings, Grammar/States and Grammar/Sound compare the parser; it asks of the bytes of a string only
--   that they be neither control characters, quotes nor backslashes.
-- - Http: `McpSecurityMiddleware` of src/nplg_mcp/http_security.py. Headers and Policy are the response policy, Body
--   `_bounded_body`, Credentials `_authenticated_principal` with its specification in Authenticated, Host the
--   `_canonical_host` of src/nplg_mcp/config.py, Security the checks of `_security_call` with what they establish in
--   Admitted and Unread, and Gates the admission of a request, with its runs in Flight. Bytes are numbers, and the
--   events of a body are those that arrive before its deadline.
-- - Tokens: src/nplg_mcp/tokens.py. Base64 is the text of `_b64encode` and `_b64decode`, Paths `_validate_path` and
--   Assets the signing and verifying of asset tokens, Json the checks of src/nplg_mcp/json_types.py, and Cursors the
--   signing and verifying of search cursors. The keyed hash, the JSON codec and the model layer are parameters.
-- - Network: Resolution is `is_forbidden_address` and `resolve_approved_addresses` of src/nplg_mcp/security.py. The
--   resolver and the reading of addresses, of the standard library, are parameters.
-- - Ipc: Frames is `encode_frame` of src/nplg_mcp/pdf_ipc.py with the readers of src/nplg_mcp/pdf_worker_main.py and
--   src/nplg_mcp/pdf_worker_client.py, Values its `_preflight_json`, and Parser the frames of src/nplg_mcp/parser_ipc.py.
--   A stream is the bytes up to its end. The walk over a value has as fuel one round more than there may be values.
--   The model layer, a third-party library, and the JSON parse of the standard library are parameters.
-- - Resource: src/nplg_mcp/resource_admission.py, with the weights in Weights, the accounts in Budget and Outcomes and the request
--   scope in Scopes.
-- - Storage: Lifecycle has the policies, capacities, blockers and the latch of src/nplg_mcp/storage_lifecycle.py, and
--   Clock its `ClockHighWater`, and Insertion its `PersistentInsertionOrder`, with what it keeps through crashes and
--   restarts in Insertion/Restarts and Insertion/Restored; Publication, Prune and Leases are the reservations, the pruning and the leases of
--   src/nplg_mcp/storage.py. What the file system, the capacity sampler and the inventory answer is observed by a
--   call; UTC times are microseconds and file times nanoseconds.
-- - Slot: `WorkerStagingQuota` of src/nplg_mcp/pdf_worker_slot.py, which leases the file system of the PDF worker, with
--   its runs in Slot/Lifetime; Root is `validate_quota_bound_staging_root`.
-- - Tiles: `_tile_layout` and `tile_boxes` of src/nplg_mcp/pdf.py; the range has the width as fuel, as its stride is
--   positive.
--
-- Not modelled: the ASGI assembly, and the shutdown and the deadline of a request, which cancel tasks; the tools and
-- the MCP server, which call a third-party library; HTML parsing, PDF rendering and malware scanning, which call
-- third-party engines; sockets, TLS and subprocesses; the other settings and the contracts, which declare data; the
-- publication of blobs of the store; the rate limiter.
pub mod Prelude
pub mod Admission
pub mod Resource
pub mod Resilience
pub mod Preflight
pub mod Storage
pub mod Slot
pub mod Tiles
pub mod Http
pub mod Ipc
pub mod Tokens
pub mod Network
