-- ===== src/Dcgi.antt =====
-- src/dcgi.c and include/dcgi.h: modules loaded at run time. What the dynamic linker does is a
-- parameter; addresses and handles are numbers.
pub mod Handle
pub mod Answers
mod Tests
use chttpd.Prelude.{ℕ, Bool, true, false, not, Option, none, some, ◌++◌}
use chttpd.Prelude.Int.{ℤ, pos}
use chttpd.Libc.{Bytes}
use chttpd.Libc.Text.{codes}
use chttpd.Error.{Error, SourceInfo, format_error}

-- `dlopen`, `dlsym`, `dlclose` (whether it returns 0) and `dlerror`.
pub record Linker : Type 0 where
  pub dlopen : Bytes → Option ℕ
  pub dlsym : ℕ → Bytes → Option ℕ
  pub dlclose : ℕ → Bool
  pub dlerror : Bytes

-- `lib_handle` is `none` while the field is not initialised; `dcgi_dealloc` is `none` for `NULL`.
pub record DcgiModule : Type 0 where
  pub lib_handle : Option ℕ
  pub dcgi_main : ℕ
  pub dcgi_dealloc : Option ℕ

-- Where a line of a source file reports an error.
unfoldable pub at_line : Bytes → ℕ → SourceInfo
at_line file n = record { source_file = some file; line = pos n }

-- `NULL` with the error set, or a module. Its `libHandle` is not stored.
unfoldable pub load_dcgi_module : Linker → Bytes → Error → Option DcgiModule × Error
unfolding at_line
load_dcgi_module linker dcgi_lib error = elim (linker.dlopen dcgi_lib) [
  | none ↦ (
    none,
    format_error error (at_line (codes "src/dcgi.c") 14) (pos 500)
        (codes "error opening DCGI library \"" ++ dcgi_lib ++ codes "\": " ++ linker.dlerror),
  )
  | some handle ↦ elim (linker.dlsym handle (codes "dcgi_main")) [
    | none ↦ (
      none,
      format_error error (at_line (codes "src/dcgi.c") 21) (pos 500)
          (codes "error locating 'dcgi_main' on \"" ++ dcgi_lib ++ codes "\": " ++ linker.dlerror),
    )
    | some main ↦ (
      some (record {
        lib_handle = none;
        dcgi_main = main;
        dcgi_dealloc = linker.dlsym handle (codes "dcgi_dealloc");
      }),
      error,
    )
  ]
]
