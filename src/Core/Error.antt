-- ===== src/Core/Error.antt =====
-- `RuntimeErrorKind`, `RuntimeError` and `ValidationError` of crates/ferrobox-core/src/lib.rs. The
-- message of a runtime error is text for people, which no code branches on: the kind is the model.
pub data RuntimeErrorKind : Type 0 where
  not_found conflict invalid_input unauthorized unsupported timeout : RuntimeErrorKind
  resource_exhausted unavailable internal : RuntimeErrorKind

abbrev pub RuntimeError : Type 0
RuntimeError = RuntimeErrorKind

pub data ValidationError : Type 0 where
  invalid_template cpu_count memory timeout argv environment output_limit : ValidationError
  sandbox_path process_id snapshot_name : ValidationError

-- `.map_err(|error| RuntimeError::invalid(error.to_string()))`
abbrev pub invalid : ValidationError → RuntimeError
invalid error = invalid_input
