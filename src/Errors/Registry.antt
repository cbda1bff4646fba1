-- ===== src/Errors/Registry.antt =====
-- The table `kErrorRegistry` of src/laige-core/errors.cpp, slot by slot.
use Prim.Native.String.{String, ◌++◌}
use laige_cpp.Prelude.{List, [], ◌∷◌}
use laige_cpp.Result.{
  ErrorCode, unknown, invalid_argument, malformed_input, budget_exhausted, io_error, gl_unavailable,
  gl_version_unsupported,
}

pub record ErrorEntry : Type 0 where
  pub code : ErrorCode
  pub code_id : String
  pub what_failed : String
  pub why : String
  pub fix : String
  pub doc_anchor : String
  pub text : String

-- The sentinel 0, and the values that no code has.
abbrev pub slot0 : ErrorEntry
slot0 = record {
  code = unknown;
  code_id = "unknown";
  what_failed = "an engine operation failed but no registered code applies";
  why =
      "the failure was not mapped to an ErrorCode, or the code value was corrupted "
      ++ "in transit";
  fix =
      "report the numeric code and call site; map the failure to a registered code "
      ++ "(see docs/api/errors.md, 'Adding a code')";
  doc_anchor = "docs/api/errors.md#unknown";
  text =
      "unknown | an engine operation failed but no registered code applies | the "
      ++ "failure was not mapped to an ErrorCode, or the code value was corrupted in "
      ++ "transit | report the numeric code and call site; map the failure to a "
      ++ "registered code (see docs/api/errors.md, 'Adding a code') | "
      ++ "docs/api/errors.md#unknown";
}

abbrev slot1 : ErrorEntry
slot1 = record {
  code = unknown;
  code_id = "unknown";
  what_failed = "an engine operation failed but no registered code applies";
  why =
      "the failure was not mapped to an ErrorCode, or the code value was corrupted "
      ++ "in transit";
  fix =
      "report the numeric code and call site; map the failure to a registered code "
      ++ "(see docs/api/errors.md, 'Adding a code')";
  doc_anchor = "docs/api/errors.md#unknown";
  text =
      "unknown | an engine operation failed but no registered code applies | the "
      ++ "failure was not mapped to an ErrorCode, or the code value was corrupted in "
      ++ "transit | report the numeric code and call site; map the failure to a "
      ++ "registered code (see docs/api/errors.md, 'Adding a code') | "
      ++ "docs/api/errors.md#unknown";
}

abbrev slot2 : ErrorEntry
slot2 = record {
  code = invalid_argument;
  code_id = "invalid_argument";
  what_failed = "a caller passed a value outside the operation's documented domain";
  why =
      "boundary validation rejected the input (API-008: invalid input is validated "
      ++ "at the boundary)";
  fix =
      "pass a value within the documented range and units; the log context names "
      ++ "the failing parameter";
  doc_anchor = "docs/api/errors.md#invalid-argument";
  text =
      "invalid_argument | a caller passed a value outside the operation's "
      ++ "documented domain | boundary validation rejected the input (API-008: "
      ++ "invalid input is validated at the boundary) | pass a value within the "
      ++ "documented range and units; the log context names the failing parameter | "
      ++ "docs/api/errors.md#invalid-argument";
}

abbrev slot3 : ErrorEntry
slot3 = record {
  code = malformed_input;
  code_id = "malformed_input";
  what_failed = "a parser or decoder rejected structurally invalid input";
  why =
      "the input violated the format's grammar or its size/depth limits (ADR 0003 "
      ++ "config-JSON bounds)";
  fix =
      "validate the input against the format spec before use; treat untrusted "
      ++ "input as hostile (SCALE-004)";
  doc_anchor = "docs/api/errors.md#malformed-input";
  text =
      "malformed_input | a parser or decoder rejected structurally invalid input | "
      ++ "the input violated the format's grammar or its size/depth limits (ADR 0003 "
      ++ "config-JSON bounds) | validate the input against the format spec before "
      ++ "use; treat untrusted input as hostile (SCALE-004) | "
      ++ "docs/api/errors.md#malformed-input";
}

abbrev slot4 : ErrorEntry
slot4 = record {
  code = budget_exhausted;
  code_id = "budget_exhausted";
  what_failed = "a budgeted resource ran out before the requested work completed";
  why =
      "the caller requested more work or capacity than the configured budget "
      ++ "allows (PERF-008, SCALE-003)";
  fix =
      "reduce per-call work or raise the budget through typed configuration "
      ++ "(API-006); budgeted resources must never grow silently";
  doc_anchor = "docs/api/errors.md#budget-exhausted";
  text =
      "budget_exhausted | a budgeted resource ran out before the requested work "
      ++ "completed | the caller requested more work or capacity than the configured "
      ++ "budget allows (PERF-008, SCALE-003) | reduce per-call work or raise the "
      ++ "budget through typed configuration (API-006); budgeted resources must never "
      ++ "grow silently | docs/api/errors.md#budget-exhausted";
}

abbrev slot5 : ErrorEntry
slot5 = record {
  code = io_error;
  code_id = "io_error";
  what_failed = "an I/O operation (a file, or a system interface) failed";
  why =
      "the file could not be opened, written, or flushed (missing path, "
      ++ "permissions, full disk), or a system interface call (e.g. signal "
      ++ "registration for crash handling) was rejected";
  fix =
      "check the path, permissions, and disk space; for logging, fall back to the "
      ++ "current console sink (LOG-007 minimal fallback, docs/api/logging.md)";
  doc_anchor = "docs/api/errors.md#io-error";
  text =
      "io_error | an I/O operation (a file, or a system interface) failed | the "
      ++ "file could not be opened, written, or flushed (missing path, permissions, "
      ++ "full disk), or a system interface call (e.g. signal registration for crash "
      ++ "handling) was rejected | check the path, permissions, and disk space; for "
      ++ "logging, fall back to the current console sink (LOG-007 minimal fallback, "
      ++ "docs/api/logging.md) | docs/api/errors.md#io-error";
}

abbrev slot6 : ErrorEntry
slot6 = record {
  code = gl_unavailable;
  code_id = "gl_unavailable";
  what_failed = "a usable OpenGL context could not be created";
  why =
      "the windowing backend is unavailable (no display for GLFW, no EGL "
      ++ "surfaceless platform), the GL library failed to load, context creation "
      ++ "failed, or the offscreen FBO failed its completeness check";
  fix =
      "verify the platform has an OpenGL 3.3 capable driver (the P0 CI runners "
      ++ "do), and on headless Linux that Mesa provides EGL surfaceless; the "
      ++ "gl/context_creation_failed event names the failing stage";
  doc_anchor = "docs/api/errors.md#gl-unavailable";
  text =
      "gl_unavailable | a usable OpenGL context could not be created | the "
      ++ "windowing backend is unavailable (no display for GLFW, no EGL surfaceless "
      ++ "platform), the GL library failed to load, context creation failed, or the "
      ++ "offscreen FBO failed its completeness check | verify the platform has an "
      ++ "OpenGL 3.3 capable driver (the P0 CI runners do), and on headless Linux "
      ++ "that Mesa provides EGL surfaceless; the gl/context_creation_failed event "
      ++ "names the failing stage | docs/api/errors.md#gl-unavailable";
}

abbrev slot7 : ErrorEntry
slot7 = record {
  code = gl_version_unsupported;
  code_id = "gl_version_unsupported";
  what_failed =
      "the created GL context does not meet the engine's OpenGL 3.3 core " ++ "requirement";
  why =
      "the driver's context is an older GL version or a compatibility-profile "
      ++ "context (PRD §6 requires 3.3 core)";
  fix =
      "no fallback exists; install an OpenGL 3.3 core capable driver (the P0 CI "
      ++ "runners do); the gl/context_created and gl/context_creation_failed events "
      ++ "carry the realized version";
  doc_anchor = "docs/api/errors.md#gl-version-unsupported";
  text =
      "gl_version_unsupported | the created GL context does not meet the engine's "
      ++ "OpenGL 3.3 core requirement | the driver's context is an older GL version "
      ++ "or a compatibility-profile context (PRD §6 requires 3.3 core) | no fallback "
      ++ "exists; install an OpenGL 3.3 core capable driver (the P0 CI runners do); "
      ++ "the gl/context_created and gl/context_creation_failed events carry the "
      ++ "realized version | docs/api/errors.md#gl-version-unsupported";
}

-- The slots from 1 on.
abbrev pub codes : List ErrorEntry
codes = slot1 ∷ slot2 ∷ slot3 ∷ slot4 ∷ slot5 ∷ slot6 ∷ slot7 ∷ []
