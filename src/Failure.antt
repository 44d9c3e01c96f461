-- ===== src/Failure.antt =====
-- internal/collector/errors.go, and the other errors that a visit ends with.
use tobey.Common.{ℕ, String, Bool, true, false}

pub data Error : Type 0 where
  check_internal forbidden_domain forbidden_path missing_url max_depth forbidden_url : Error
  robots_txt_blocked empty_proxy_url aborted_after_headers : Error
  -- context.DeadlineExceeded, or an error that wraps it
  deadline_exceeded : Error
  -- errors.New(http.StatusText(code))
  http_status : ℕ → Error
  other : String → Error

-- errors.Is(err, context.DeadlineExceeded)
abbrev pub is_deadline_exceeded : Error → Bool
is_deadline_exceeded deadline_exceeded = true
is_deadline_exceeded _ = false
