-- ===== src/Error.antt =====
-- src/error.c and include/error.h: the buffer in which a failure is reported.
use chttpd.Prelude.{
  arith, ℕ, ◌-◌, Bool, false, not, Option, none, take, ◌==◌, if◌then◌else◌, [], ◌≡◌,
}
use chttpd.Prelude.Int.{ℤ, pos, negsuc}
use chttpd.Libc.{Bytes}

pub record SourceInfo : Type 0 where
  pub source_file : Option Bytes
  pub line : ℤ

-- The flexible array holds a string, `[]` where it is all zeros.
pub record Error : Type 0 where
  pub source_info : SourceInfo
  pub err_code : ℤ
  pub buffer_size : ℕ
  pub error_buffer : Bytes

abbrev pub no_source : SourceInfo
no_source = record { source_file = none; line = negsuc 0 }

-- `errorBuffer`, whose allocation is taken to succeed.
unfoldable pub new_error : ℕ → Error
new_error size = record {
  source_info = no_source;
  err_code = pos 0;
  buffer_size = size;
  error_buffer = [];
}

abbrev pub is_zero : ℤ → Bool
is_zero (pos n) = n == 0
is_zero (negsuc n) = false

unfoldable pub is_error : Error → Bool
is_error error = not (is_zero error.err_code)

-- `text` is what the format and its arguments give, which `vsnprintf` cuts to the buffer.
unfoldable pub format_error : Error → SourceInfo → ℤ → Bytes → Error
format_error error source_info code text =
    if error.buffer_size == 0
    then record error { source_info = source_info; err_code = code }
    else record error {
      source_info = source_info;
      err_code = code;
      error_buffer = take (error.buffer_size - 1) text;
    }

-- A failure is reported under the code that was given, whatever the size of the buffer.
pub is_error-format_error :
    (error : Error) (s : SourceInfo) (code : ℤ) (text : Bytes)
    → is_error (format_error error s code text) ≡ not (is_zero code)
unfolding is_error format_error
is_error-format_error error s code text = ground arith
