-- ===== src/Lib.antt =====
-- Tamga: the core of a library that verifies electronic signatures under the Ukrainian PKI.
--
-- A signature is verified by src/lib/core/validation. A context (profile, level, times, evidence)
-- is resolved to a policy and a plan; the time of signing is chosen; a timestamp, the certificate
-- path, the record of the issuing service in the national trust list and the revocation status are
-- checked; a decision is made of the findings. The files and what they are about:
--
--   Prelude (with Tests, Lists, Text, Int, Find, Order, OrderedMap): shared names and helpers.
--     `Find.find_if` is `std::find_if`, `Int.ℤ` is `time_t`, `OrderedMap` is `std::map`.
--   Util/Der: src/lib/util/Der.cpp, `ParseDerLength` and `ParseTlvAt`; `size_t` has 64 bits.
--   Util/Base64: src/lib/util/Base64.cpp.
--   Util/Utf: src/lib/util/Utf.cpp; the loop of `DecodeUtf8ToUtf16` is on fuel, which Utf/Fuel shows
--     to be enough.
--   Util/Hex: src/lib/util/Hex.cpp.
--   Util/Json: src/lib/util/Json.cpp. A position in the text is what follows it. Json/Strings is about
--     the escape, Json/Objects about reading a key, Json/Lengths and Json/Skips about what a step
--     leaves. The fuel for a value is three times its bytes and one more, which Json/Fuel is about.
--   Util/AsicUri: src/lib/util/AsicUri.cpp and src/lib/util/Iso8601.cpp.
--   Session/Paths: `IsValidUtf8Path` of SessionHelpers.ipp, on fuel, the number of bytes.
--   Session/Formats: `IsPkcs12Der`, `IsLikelyPem`, `IsValidTimeout` and `IsLikelyUrl` of it.
--   Session/Imprint: src/lib/core/policy/ImprintDigest.cpp and `ResolveTspImprint`; the hash
--     functions are parameters.
--   Validation/Types: ValidationTypes.h, PolicyTypes.h and the results of the engines.
--   Validation/PolicyResolver: PolicyResolver.cpp, `PolicyResolver::Resolve`.
--   Validation/SigningTime: SigningTimeResolver.cpp, `SigningTimeResolver::Resolve`.
--   Validation/Path: PathEngine.cpp: `PathBuilder::Build` is `build`, `PathValidator::Validate` is
--     `validate`, `PathSelector::Select` is `select`; Path/Pipeline composes them.
--   Validation/Revocation: RevocationEngine.cpp; `RevocationEngine::Validate` is
--     `Revocation.Engine.validate`, cut at its three sources and its verdict.
--   Validation/TrustService: TrustServiceEvaluator.cpp: `SelectSnapshot`, `Evaluate`.
--   Validation/Timestamp: TimestampEngine.cpp; `TimestampEngine::Validate` is
--     `Timestamp.Engine.validate`, a chain of steps in a monad whose `stop` is an early return. Sound
--     follows the steps, Trust is about the authority, Claims about the result.
--   Validation/EvidenceStore: EvidenceStore.cpp, over `Prelude/OrderedMap`, which is `std::map`. Laws
--     is about sequences of calls, Canonical about the order of fields, Injective about the JSON text.
--   Validation/Decision: `SynthesizeDecision` of ValidationEngine.cpp.
--   Validation/Engine: the rest of ValidationEngine.cpp. Engine holds the data and the inputs of the
--     parts, Engine/Run the steps of `ValidationEngine::Validate` (`gather` is steps 6 to 9),
--     Laws and Backed what a report rests on.
--   Report/Types: the structures of Session.h, VerifySummary.h, VerifyReportCommit.h, VerifyChecks.h.
--   Report/Summary, Report/Checks: VerifySummary.cpp, VerifyChecks.cpp, PolicyDecision.cpp; Verdict is
--     about how they agree.
--   Report/Commit: VerifyReportCommit.cpp.
--   Report/Ownership: VerifyReportOwnership.h and the operations of the session on its report, as steps
--     of threads that interleave.
--   Report/Projection: ValidationReportProjection.cpp: `ProjectVerifyReport` is
--     `project_verify_report`; and `ApplyValidationEngineReport` of SessionHelpers.ipp.
--   Report/Aggregation: the signers of a document, SessionStateAndNormalization.ipp.
--     Aggregation/Signers follows each signer from the engine to the aggregated report.
--   Validation/Tests, Report/Tests, Report/SignerTests, Session/Tests, Util/Tests, Util/TextTests: runs
--     at concrete inputs.
--
-- A `std::string` that is only compared, joined and stored is a `String`; where bytes are walked or
-- ordered it is a list of bytes. A value that the code builds up by assignments is built by record
-- updates in the same order. What lies behind a call that is not modelled is a parameter: the chain
-- builder and the validators of single OCSP responses, CRLs and timestamp tokens
-- (src/lib/core/policy), the CRL cache, the clock and the file system. Where such a call may change
-- something it takes a state of the world and returns the next, so the order of calls is kept. No
-- theorem assumes anything of these parameters beyond what its statement says. Most loops are
-- structural recursions; the others run on fuel, from the length of the text on.
--
-- Not modelled: SHA-256 (src/lib/core/policy/Sha256Helper.h), in whose place any function may stand;
-- the validators behind the parameters above, which call a third-party ASN.1 and cryptographic
-- library; the texts of the reports and the trust-list synchronisation (src/lib/core/policy); the
-- other helpers of src/lib/util; the containers (src/lib/pades, xades, xmldsig, asic), which rest on third-party parsers; HTTP, the
-- session, the C interface, the command line and the 1C component.
pub mod Prelude
pub mod Report
pub mod Session
pub mod Util
pub mod Validation
