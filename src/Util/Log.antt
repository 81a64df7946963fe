-- ===== src/Util/Log.antt =====
-- `chttpdLog` and `setWorkerId` of src/util.c. The state is that of one thread; what `vsnprintf`
-- makes of the format and its arguments is the message.
pub mod Bounds
mod Tests
use chttpd.Prelude.{
  ℕ, suc, ◌+◌, ◌-◌, ◌%◌, ◌^◌, Bool, true, false, Option, none, some, List, [], ◌∷◌, ◌++◌, leb, ltb,
  if◌then◌else◌, length, drop,
}
use chttpd.Prelude.Int.{ℤ, pos, negsuc}
use chttpd.Libc.{Bytes, Result, ok, fault, out_of_bounds, null_pointer, ◌>>=◌, until_nul}
use chttpd.Libc.Text.{codes}
use chttpd.Intern.{print_ℕ, print_ℤ}

pub data LogLevel : Type 0 where
  ll_debug ll_info ll_warn ll_error ll_fatal : LogLevel

unfoldable pub log_level_controls : LogLevel → Bytes
log_level_controls ll_debug = codes "96"
log_level_controls ll_info = codes "32"
log_level_controls ll_warn = codes "93"
log_level_controls ll_error = codes "91"
log_level_controls ll_fatal = codes "97;41"

unfoldable pub log_level_texts : LogLevel → Bytes
log_level_texts ll_debug = codes "debug"
log_level_texts ll_info = codes "info"
log_level_texts ll_warn = codes "warn"
log_level_texts ll_error = codes "error"
log_level_texts ll_fatal = codes "fatal"

-- The thread's `buffer`, its `bufferSize` and its `workerId`.
pub record Logger : Type 0 where
  pub buffer : Option Bytes
  pub buffer_size : ℕ
  pub worker_id : ℤ

-- `workerId` is an `ssize_t`, and is set from a `size_t`.
unfoldable pub set_worker_id : Logger → ℕ → Logger
set_worker_id logger new_worker_id =
    let r = new_worker_id % 2 ^ 64 in
    record logger { worker_id = if ltb r (2 ^ 63) then pos r else negsuc (2 ^ 64 - 1 - r) }

abbrev pub is_main : ℤ → Bool
is_main (pos n) = false
is_main (negsuc ℕ.zero) = true
is_main (negsuc (suc n)) = false

-- A buffer that is too small is freed, and another is allocated.
unfoldable pub require : (ℕ → Option Bytes) → Logger → ℕ → Logger
require malloc logger required_size =
    if ltb logger.buffer_size required_size
    then record logger { buffer = malloc required_size; buffer_size = required_size }
    else logger

-- `vsprintf`
unfoldable pub store_message : Option Bytes → Bytes → Result Bytes
store_message none message = fault null_pointer
store_message (some block) message =
    if leb (length message + 1) (length block)
    then ok (message ++ 0 ∷ drop (length message + 1) block)
    else fault out_of_bounds

-- Where a line of the log comes from.
pub record Place : Type 0 where
  pub level : LogLevel
  pub file_name : Bytes
  pub line : ℤ
  pub func : Bytes

-- The line, with the number of the thread if it has one.
unfoldable pub log_line : Place → ℤ → Bytes → Bytes
unfolding log_level_controls log_level_texts print_ℕ print_ℤ
log_line place worker_id message =
    27 ∷ codes "["
    ++ log_level_controls place.level
    ++ codes "m [ "
    ++ log_level_texts place.level
    ++ codes " "
    ++ place.file_name
    ++ codes ":"
    ++ place.func
    ++ codes ":"
    ++ print_ℤ place.line
    ++ codes " ] "
    ++ (if is_main worker_id then [] else codes "<" ++ print_ℤ worker_id ++ codes "> ")
    ++ message
    ++ codes " "
    ++ 27 ∷ codes "[0m\n"

-- Threads with a number release the buffer at once, since nothing does so when they end.
unfoldable pub release : Logger → Logger
release logger =
    if is_main logger.worker_id then logger else record logger { buffer = none; buffer_size = 0 }

-- What is written to `stderr`, and the state behind it.
unfoldable pub chttpd_log : (ℕ → Option Bytes) → Logger → Place → Bytes → Result (Logger × Bytes)
unfolding require store_message log_line release until_nul
chttpd_log malloc logger place message =
    let logger' = require malloc logger (length message + 1) in
    store_message logger'.buffer message >>= λ block. ok (
      release (record logger' { buffer = some block }),
      log_line place logger.worker_id (until_nul block),
    )
