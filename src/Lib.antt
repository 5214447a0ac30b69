-- ===== src/Lib.antt =====
-- IndexOne: who may act, what was recorded, and what a relying party may conclude.
--
-- A human principal issues a scope, and agents pass parts of it on: a chain of signed delegation
-- blocks (core/chain). Each action leaves a receipt in an append-only Merkle log (core/witness), and
-- a party other than the executor attests its outcome (core/attestation). Revoked blocks are listed
-- by checkers and signed snapshots (core/revocation) or in a sparse Merkle map (core/revmap) whose
-- roots are committed to a log (core/revlog). The verifier (core/verifier) composes the checks: it
-- takes the chain's scope only where the chain, the receipt, the attestation, the log and, in its
-- gated forms, the revocation proofs and the purpose all agree.
--
-- Files. Each component has a parent file that passes its names on and children for its definitions
-- and for what is proved of them.
--   Base: numbers, lists, results, equality tests, blank texts and trim, shared by all.
--   Crypto: core/crypto. Defs has the tagged keys and signatures and the two raw arms, Framing and
--     Hybrid the hybrid scheme, Verify the dispatch of verify_signature.
--   Chain: core/chain/src/lib.rs. Scope narrows scopes (is_narrowing_of, authorizes_subset_of), Blocks
--     has the data and tail, Verify has issue, from_root, attenuate and verify. Spec says what an
--     authorized chain is; Extend is about growing one.
--   Witness: core/witness/src/lib.rs. Tree is the memoized tree core (subtree, subtree_path,
--     subproof), Log the methods of Witness, Check the checks of a relying party. TreeHash is the
--     tree hash of RFC 6962 by recomputation, which Memo shows the cached code to compute. Rounds reads
--     the loops of verify_consistency level by level, Levels splits numbers and trees at a level;
--     Consistency, Subproof and Spine are about the nodes that subproof pushes (Pushes), Growth and
--     Honest about a log that has grown, Kept about the calls that only read.
--   Attestation: core/attestation/src/lib.rs, alone (Completion) and k of n (Threshold).
--   Revocation: core/revocation/src/lib.rs, the checkers and the signed snapshot.
--   RevMap, RevLog: core/revmap/src/lib.rs and core/revlog/src/lib.rs. Order, Bits and Halves are about
--     the order of the keys, Soundness and NonInclusion about what an accepted proof says, Paths,
--     Completeness and Elision about what prove builds. RevLog.Verdicts joins the map and the log,
--     RevLog.Kept is about the calls that only read.
--   Verifier: core/verifier/src/lib.rs. Defs has verify and verify_threshold, Gates the gated forms.
--   WitnessService: services/witness/src/lib.rs. Store is the durable file of receipts and its replay,
--     Submit the handlers; a write may stop after any number of bytes.
--   RevocationService: services/revocation-log/src/lib.rs. The set of revoked ids and its snapshots are
--     in the parent, Requests has the data and the parsing of ids, Handlers the state and the handlers.
--     Epochs and Served are about the set, Serving about any sequence of requests, Status about the
--     handlers for the map, Listing about the audit listing.
--   Checkpoint: clients/checkpoint/src/lib.rs. Str is what is used of text, Note the signed notes,
--     Cosigner the cosigning witness and the quorum. Written, RoundTrip and Cosigned are about the text
--     of notes, Cosigning and History about the witness, Quorum about the relying party.
--   Sample: concrete parameters; the Tests modules apply the theorems to them.
--
-- State. A method that changes its receiver returns it with the result. The caches of the log are
-- passed in and out, so a method that only reads returns the log it leaves too. A checker of
-- revocations reads and leaves the state of all checkers. A panic on a failed signature is an error.
-- The text of an error is left as the values that it prints.
--
-- Parameters. Bytes and texts are lists of numbers. The record Primitives has what is called of blake3,
-- ed25519-dalek and fips204; the records of encodings have what is called of serde_jcs, one function
-- for each type; NotePrimitives has what is called of sha2 and base64, and IsNoteFormat what is relied on
-- of them; HexCodec is the hex crate, of which IsBytewise and DecodesHex say what is relied on; a clock,
-- a transport and a snapshot source are what they return. A signer is any record of a key and a signing function; IsGenuine says that its signatures hold under its key.
-- Where a proof rests on the hash function, it names two inputs that collide (Collision) as the other
-- case, and IsSized says that a hash has 32 bytes.
--
-- Bounds and fuel. The log's recursions go by the size of a range: fuel above the size is enough, and
-- the code is called with one more than it (Memo, Inclusion). verify_signature calls itself for the
-- components of a hybrid: two levels are enough (Crypto.Verify.Components). The loops of
-- verify_consistency take node or last halvings, which the sizes bound. The replay of the file takes four
-- bytes a round at least, so the length of the file is enough. The map's recursions go by the
-- height that is left, 256 less the depth. Epochs and sizes are unbounded numbers; amounts are bounded
-- by u64_max where it matters.
--
-- Not modelled: the concrete signers, which call third-party code, the serde encodings, the routing
-- and the wire formats of the services, the remaining handlers of services/witness, the clients over
-- the network, the command line, benchmarks, fuzz targets and demonstrations.
pub mod Attestation
pub mod Base
pub mod Chain
pub mod Checkpoint
pub mod Crypto
pub mod RevLog
pub mod RevMap
pub mod Revocation
pub mod RevocationService
pub mod Sample
pub mod Verifier
pub mod Witness
pub mod WitnessService
