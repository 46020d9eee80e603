-- ===== src/Providers.antt =====
-- internal/providers/provider.go: the failure taxonomy and the errors that providers return.
use llm_inference_gateway.Base.{ℕ, ◌||◌, Option, none, some, [], leb, nat_beq, if◌then◌else◌, Text}
use llm_inference_gateway.Base.Int.{ℤ, pos, negsuc}
use llm_inference_gateway.Base.Word.{mul64}

pub data FailureClass : Type 0 where
  terminal retryable fallback : FailureClass

-- `retry_after` is a duration in nanoseconds, as an int64 pattern.
pub record ApiError : Type 0 where
  pub status_code : ℕ
  pub message : Text
  pub retry_after : ℕ

-- Every provider's `Classify` is this function of the status, which is 0 where no status is known.
unfoldable pub classify_by_status : ℕ → FailureClass
classify_by_status status =
    if nat_beq status 429 || leb 500 status
    then retryable
    else (if nat_beq status 400 || nat_beq status 401 || nat_beq status 403 || nat_beq status 404
        then fallback
        else terminal)

-- `strconv.Atoi` and, for an HTTP date, `time.Until(http.ParseTime(header))`: `none` is an error.
unfoldable pub parse_retry_after : (atoi : Text → Option ℤ) (until : Text → Option ℤ) → Text → ℕ
parse_retry_after atoi until [] = 0
parse_retry_after atoi until header = elim (atoi header) [
  | some (pos secs) ↦ mul64 secs 1000000000
  | some (negsuc _) ↦ 0
  | none ↦ elim (until header) [ some (pos d) ↦ d | some (negsuc _) ↦ 0 | none ↦ 0 ]
]
