-- ===== src/Lib.antt =====
-- Verglos CLI: a model of the release-assurance contracts of packages/shared.
--
-- The program inspects a software release, records what it observed, evaluates a policy over the
-- record, and issues a release decision. Every step exchanges a JSON document with a schema id and a
-- version; a module of packages/shared/src owns each document's contract: its shape, its
-- refinements, and the functions that derive, create and parse it. The scanner produces
-- observations, the hunt package runs verification attempts, the CLI and the MCP server drive them
-- and print what the contracts return. The model covers the contracts that decide something:
--
--   Schema/Version      packages/shared/src/schema.ts: schema ids, versions and their compatibility.
--   Schema/Json         the same file: enforceStructureLimits, the walk over a stack that bounds a
--                       parsed value (Limits), next to the measures it computes (Measures).
--   Schema/Document     the same file: parseBoundedJson and parseVersionedJson, the way in for every
--                       document.
--   Schema/Canonical    the same file: canonicalizeJson.
--   PolicyEvaluation    packages/shared/src/policy-evaluation.ts. The facts of an evaluation
--                       (PolicyEvaluation.antt), deriveDecision (Derive), the schema's checks and
--                       refineEvaluationInput (Validate), parsing and creation (Parse).
--   PolicyException     packages/shared/src/exception.ts: requests for an exception and approvals
--                       (Validate), and evaluatePolicyException (Evaluate).
--   Failure             packages/shared/src/failure.ts: failure documents, createFailure.
--   ReleaseDecision     packages/shared/src/release-decision.ts: createReleaseDecision reads an
--                       evaluation through PolicyEvaluation/Parse and binds its decision.
--   Verification        packages/shared/src/verification.ts: attempts at verifying a finding in a
--                       sandbox: the fields (Validate), refineAttempt and parsing (Refine).
--   LineageGraph        packages/shared/src/lineage-graph.ts: the document of a lineage graph.
--   ReleaseDiff         packages/shared/src/release-diff.ts: what two snapshots of a release differ in
--                       by fingerprint, severity, identity and policy (the deltas of coverage and
--                       lineage are left out), and what keeps them from
--                       being compared (Blockers).
--   Subject             packages/shared/src/subject.ts: the seven kinds (Subject.antt), paths (Path),
--                       field formats (Fields), registry hosts (Registry), the schema and its
--                       refinements (Refine), identity, creation and parsing (Identity).
--   Approval            packages/shared/src/action-authority.ts (Actions) and approval-receipt.ts:
--                       receipts and their digests; Tools for mcp-authority.ts, Authorize for
--                       agent-authorization.ts and remediation-approval.ts, Store for
--                       approval-store.ts, whose puts are the steps of a relation on directories.
--   Hunt                packages/shared/src/hunt-recipe.ts (Hunt.antt), hunt-verdict.ts (Verdict),
--                       hunt-recipe-trust.ts (Trust) and hunt-execution-gate.ts (Gate), which asks
--                       Approval whether a hunt was approved.
--   PrivateRunner       packages/shared/src/private-runner.ts: jobs and their admission, projected
--                       results (Result); Client is pollPrivateRunnerJob of
--                       packages/cli/src/private-runner-client.ts with its replay cache, and Replay
--                       follows a run of polls.
--   Archive             packages/shared/src/archive-safety.ts: the members that an archive may have;
--                       Path, the functions of node:path on segments, and Extract, which is
--                       extractArchiveMembers of packages/shared/src/archive-extractor.ts.
--   Baseline            packages/shared/src/baseline.ts and baseline-compare.ts: accepted findings, and
--                       what a run has beyond them.
--   ReleaseRollback     packages/shared/src/release-rollback.ts: decideReleaseRollback.
--
-- Below them stand Prelude (Boolean tests on numbers, lists), Text (JavaScript strings as lists of
-- UTF-16 code units, their order, Set<string>, and sort with a text key), Formats (the regular
-- expressions that several contracts share, from engine.ts, subject.ts and policy-evaluation.ts) and
-- Contracts (issues, optional fields, the result of a parse). Names are the source's in snake_case:
-- deriveDecision is derive_decision, PolicyCheckSchema the record PolicyCheck with its rows of
-- checks. An XSchema of the source is a record or data type X together with `X_rows`: a list of
-- conditions, each with the issue that it adds, in the order of the source.
--
-- How the code is represented:
-- * A zod schema is modelled on values that already have the TypeScript type it infers: unknown keys,
--   missing required fields and values of the wrong type do not occur. Formats, bounds, superRefine
--   and the throw on failure are modelled, all issues being collected as zod does.
-- * A timestamp is what Date.parse makes of it: milliseconds from a first day before all others, since
--   the code only compares instants, or NaN. z.string().datetime is not modelled; it accepts texts
--   that Date.parse cannot read, such as those with the offset +99:99. Comparisons are those of the
--   source, false where one side is NaN. In Approval and PrivateRunner, where the code treats
--   timestamps as strings too, a timestamp is a text, and Date.parse is a parameter.
-- * An operation on files is one step, with no other process in between; what its calls on files
--   answer is an argument where the model follows it.
-- * Numbers are natural numbers: each numeric field is refused by its schema where it is negative or
--   no integer, and bounds at the safe integers are written out.
-- * A contract's `schemaId` is a literal and has no field.
-- * Sorting is a stable insertion sort by a text key with the order of code units.
-- * Hashing (node:crypto), JSON.parse, the UTF-8 decoder and `new URL` are parameters; the digest of
--   an evaluation or a request is any function.
-- * A number inside a JSON value is the text that JSON.stringify prints for it.
-- * The only loop on fuel is that of enforceStructureLimits. It has a round for each node of the value,
--   which is enough because a round takes one node off the stack for good.
--
-- Not modelled: packages/scanner (detectors over source text and the walk of a file system),
-- packages/cli but for the poll of a private runner, packages/mcp, packages/reporter (drivers and
-- output), packages/hunt (containers and processes), packages/entitlement (licence service), and the
-- contracts of packages/shared that are not named above: observations, engine adapters, importers,
-- record packaging, tar files and resolvers, the creation of snapshots, policy documents,
-- fingerprints. The JSON entry points (parse...Json) of the contracts are the composition of
-- Schema/Document with a parser that is modelled, through a zod schema that is not.
pub mod Prelude
pub mod Text
pub mod Formats
pub mod Schema
pub mod Contracts
mod Samples
pub mod PolicyEvaluation
pub mod PolicyException
pub mod Failure
pub mod ReleaseDecision
pub mod Verification
pub mod ReleaseRollback
pub mod LineageGraph
pub mod ReleaseDiff
pub mod Approval
pub mod Archive
pub mod Subject
pub mod PrivateRunner
pub mod Hunt
pub mod Baseline
