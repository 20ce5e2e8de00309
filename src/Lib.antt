-- ===== src/Lib.antt =====
-- LocusMesh: admission of inference routes, and verification of the signed evidence of a route.
--
-- The program (src/locusmesh) decides whether a route plan may run under a policy that pins a
-- topology (policy.py), builds and verifies the chain of receipts that the hops of a route sign
-- (attestation.py, crypto.py, canonical.py), remembers the nonces of verified attestations
-- (replay.py), and observes a provider's status without taking authority from it
-- (adapters/mesh_llm.py). The contracts that pass between these parts are in models.py.
--
-- Files, and the code that they are about:
--   Fail         Python exceptions as values; `raise` is `err`, and a `do` block is a body that
--                an exception leaves.
--   Scope        models.py ExecutionIntent and EvidenceLevel; policy.py _SCOPE_RANK,
--                _EVIDENCE_RANK, _effective_evidence, _minimum_scope, _minimum_evidence.
--   Runtime      what comes from outside: SHA-256, HMAC, Ed25519, the texts of a datetime. They
--                are fields of a record that the definitions take, and `IsLawful` names the
--                documented sizes and that a signature verifies under its key.
--   Json         canonical.py canonical_json_bytes: sorted keys, escapes, decimals, UTF-8; its
--                child modules read the bytes back.
--   Base64       crypto.py encode_base64url and decode_base64url.
--   Crypto       canonical.py sha256_digest and commit_request; crypto.py derive_key_id and
--                verify_ed25519. Crypto/Shape: the forms of the texts that they make.
--   Models       models.py: Patterns for the constrained texts, Topology (with policy.py
--                AdmissionPolicy), Route, Decision, Fabric. A contract is a record, and the list
--                of the errors of its fields and validators is empty where pydantic accepts it.
--                Validate: model_validate on JSON data; Reread: from a contract's own JSON form.
--   Policy       policy.py: Digest for the JSON forms, topology_digest and policy_digest; Admit
--                for admit_plan; Spec for what an admissible plan is; Causes for what each
--                reason code says.
--   Replay       ports.py ReplayStore; replay.py SQLiteReplayStore, as a table and a connection;
--                Shared for several connections on one file.
--   Attestation  attestation.py: Build for build_attestation with the signers of ports.py and
--                adapters/local_signer.py, Verify for verify_attestation, Spec for what a
--                verified attestation is, Session for a sequence of calls on one store,
--                Concurrent for processes on one file, Causes for what each reason code says.
--   Observer     adapters/mesh_llm.py: Url for _status_url and the constructor, Payload for the
--                readers, Timeout for the bounds of the constructor, Project for _project,
--                Observe for _fetch and observe, Escapes for the errors that leave them.
--   Files        io.py _read_bounded, load_json_model and load_yaml_model; adapters/fixture.py
--                snapshot. Yaml: io.py _construct_unique_mapping. The parsers and model_validate
--                are parameters here.
--   Demo         demo.py: run_demo, on the operations of the library.
--   Schemas      schema_export.py: export_schemas, on a directory as a list of files, with the
--                OSErrors of mkdir and write_text.
--   Cli          cli.py: the branches admit, verify and observe of _run, and main with its
--                handlers and exit codes; Run for all of _run on the parsed arguments, in a record
--                of what a run finds, with what it leaves behind; Dumps for json.dumps, Print
--                for the envelope and the two streams.
--   Examples     a two-hop route and a status, run through the definitions.
--
-- How the code is represented. A method is a function of the state that returns the state after
-- it. A dict or a mapping is an association list, a frozenset a list with each member once. The
-- loop of admit_plan is `audit_hops` on the three lists that it fills, the loop of
-- verify_attestation is `check_receipts` on its three variables; both are structural recursion, so
-- nothing runs on fuel, but for `decimal_from` in Json, where n rounds are enough for the digits of
-- n. A datetime is a count of microseconds with its zone; the end of the calendar is out of sight.
-- An error of SQLite or of the file system is an argument of the call, and locks between processes
-- are SQLite's own. A float is an integer over a power of two.
--
-- Not modelled: what pydantic's types take beyond their own JSON form (a datetime's texts, a
-- number in a text), which is a parameter, and the schemas that it generates; argparse in cli.py;
-- numbers in JSON other than the natural ones, which no contract writes and no reader looks at;
-- the package entry points, the tests and the smoke test of scripts.
mod Base
pub mod Fail
pub mod Scope
pub mod Runtime
pub mod Json
pub mod Base64
pub mod Crypto
pub mod Models
pub mod Policy
pub mod Replay
pub mod Attestation
pub mod Observer
pub mod Demo
pub mod Files
pub mod Schemas
pub mod Cli
mod Examples
