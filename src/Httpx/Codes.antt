-- ===== src/Httpx/Codes.antt =====
-- The canonical error codes and their HTTP status (backend/internal/httpx/errors.go).
use check.Common.{ℕ}

pub data ErrorCode : Type 0 where
  validation_failed unauthenticated token_expired forbidden not_found conflict : ErrorCode
  media_verify_failed dict_version_retired rate_limited internal unknown : ErrorCode

-- `StatusFor`, with the table `statusByCode`; `unknown` stands for a code that the table lacks.
abbrev pub status_for : ErrorCode → ℕ
status_for validation_failed = 422
status_for unauthenticated = 401
status_for token_expired = 401
status_for forbidden = 403
status_for not_found = 404
status_for conflict = 409
status_for media_verify_failed = 409
status_for dict_version_retired = 409
status_for rate_limited = 429
status_for _ = 500
