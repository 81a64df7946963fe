-- ===== src/Static/Outcome.antt =====
-- What `handleStatic` of src/static.c makes of a path: the file, or an error.
use chttpd.Prelude.{
  Option-cases, ℕ, zero, suc, ◌≡◌, refl, sym, ap, inl, inr, ◌⊎◌, true, false, Bool-cases, none,
  some, [], ◌∷◌, ◌++◌, ◌==◌, ltb, arith, if◌then◌else◌, length, take,
}
use mathlib.Core.List.{append-nil}
use chttpd.Prelude.Int.{ℤ, pos}
use chttpd.Libc.{Bytes, Result, ok, IsCStr}
use chttpd.Error.{Error, format_error}
use chttpd.Libc.Text.{codes}
use chttpd.Intern.{print_ℕ}
use chttpd.Static.{
  cache_control, File, System, read_size, read_all, static_header, static_error, send_file,
  handle_static,
}
use chttpd.Static.Mime.{last_dot, type_of, mime_guess-type_of}

-- The file that a path names can be opened, its size is known, a buffer of that size is given, and
-- as many bytes can be read.
pub record Available (system : System) (path : Bytes) : Type 0 where
  pub file : File
  pub size : ℕ
  pub opens : system.fopen path ≡ some file
  pub sized : file.size ≡ some size
  pub given : system.malloc size ≡ true
  pub enough : ltb (length file.readable) size ≡ false

-- What is written of an available file.
unfoldable pub response : (system : System) (path : Bytes) → ℤ → Available system path → Bytes
response system path cache_time a =
    (codes "HTTP/1.1 200 OK\r\nServer: chttpd/bravo2\r\nConnection: close\r\nContent-Encoding: "
      ++ codes "identity\r\nContent-Type: "
      ++ type_of (last_dot path)
      ++ codes "\r\nContent-Length: "
      ++ print_ℕ a.size
      ++ codes "\r\n"
      ++ cache_control cache_time)
    ++ (if system.errno == 0 then take a.size a.file.readable else [])

-- Why a file is not available.
pub data Unavailable (system : System) (path : Bytes) : Type 0 where
  closed : system.fopen path ≡ none → Unavailable system path
  unsized :
      (file : File) → system.fopen path ≡ some file → file.size ≡ none → Unavailable system path
  refused :
      (file : File) (size : ℕ)
      → system.fopen path ≡ some file
      → file.size ≡ some size
      → system.malloc size ≡ false
      → Unavailable system path
  short :
      (file : File) (size : ℕ)
      → system.fopen path ≡ some file
      → file.size ≡ some size
      → system.malloc size ≡ true
      → ltb (length file.readable) size ≡ true
      → Unavailable system path

availability : (system : System) (path : Bytes) → Available system path ⊎ Unavailable system path
availability system path = elim (Option-cases (system.fopen path)) [
  | inl e ↦ inr (closed e)
  | inr (file, opens) ↦ elim (Option-cases file.size) [
    | inl e ↦ inr (unsized file opens e)
    | inr (size, sized) ↦ elim (Bool-cases (system.malloc size)) [
      | inr e ↦ inr (refused file size opens sized e)
      | inl given ↦ elim (Bool-cases (ltb (length file.readable) size)) [
        | inl e ↦ inr (short file size opens sized given e)
        | inr enough ↦ inl (record {
          file = file;
          size = size;
          opens = opens;
          sized = sized;
          given = given;
          enough = enough;
        })
      ]
    ]
  ]
]

length-take : (n : ℕ) (xs : Bytes) → ltb (length xs) n ≡ false → length (take n xs) ≡ n
length-take zero xs h = refl
length-take (suc n) [] h = ground arith
length-take (suc n) (x ∷ xs) h = ap suc (length-take n xs (ground arith))

read_all-whole :
    (file : File) (n : ℕ)
    → file.size ≡ some n
    → ltb (length file.readable) n ≡ false
    → read_all file n ≡ some (take n file.readable)
unfolding read_all
read_all-whole file n e h =
    let same : (if ltb n n then n else n) ≡ n = ground arith in rw e (rw same (rw h refl))

read_all-short :
    (file : File) (n : ℕ)
    → file.size ≡ some n
    → ltb (length file.readable) n ≡ true
    → read_all file n ≡ none
unfolding read_all
read_all-short file n e h =
    let same : (if ltb n n then n else n) ≡ n = ground arith in rw e (rw same (rw h refl))

send_file-response :
    (system : System) (path : Bytes) (cache_time : ℤ) (error : Error) (a : Available system path)
    → IsCStr path
    → send_file system path (take a.size a.file.readable) cache_time error
      ≡ ok (response system path cache_time a, error)
unfolding send_file response static_header
send_file-response system path cache_time error a h =
    let size = length-take a.size a.file.readable a.enough in
    rw (mime_guess-type_of path h (last_dot path), size)
      (elim (Bool-cases (system.errno == 0)) [
        | inl e ↦ rw e refl
        | inr e ↦ rw e (
            ap (λ w. ok (w, error))
              (sym (append-nil (static_header (type_of (last_dot path)) a.size cache_time))))
      ])

same : (n : ℕ) → (n == n) ≡ true
same n = ground arith

handle_static-response :
    (system : System) (path : Bytes) (cache_time : ℤ) (error : Error) (a : Available system path)
    → IsCStr path
    → handle_static system path cache_time error ≡ ok (response system path cache_time a, error)
unfolding handle_static read_size
handle_static-response system path cache_time error a h =
    let size = length-take a.size a.file.readable a.enough in
    rw (a.opens, handle_static)
      (rw a.sized (
        rw (a.given, read_all-whole a.file a.size a.sized a.enough)
          (rw size (rw (same a.size) (send_file-response system path cache_time error a h)))))

-- Nothing is written, and the error has the code 500.
abbrev pub Fails : Result (Bytes × Error) → Type 0
Fails r = (error : Error) × (r ≡ ok ([], error)) × (error.err_code ≡ pos 500)

static_error-Fails :
    (error : Error) (line : ℕ) (text : Bytes) → Fails (static_error error line text)
unfolding static_error format_error
static_error-Fails error line text = (_, refl, ground arith)

handle_static-Fails :
    (system : System) (path : Bytes) (cache_time : ℤ) (error : Error)
    → Unavailable system path
    → Fails (handle_static system path cache_time error)
unfolding handle_static read_size
handle_static-Fails system path cache_time error (closed e) =
    rw (e, handle_static) (static_error-Fails error _ _)
handle_static-Fails system path cache_time error (unsized file o e) =
    rw (o, handle_static) (rw e (static_error-Fails error _ _))
handle_static-Fails system path cache_time error (refused file n o s e) =
    rw (o, handle_static) (rw s (rw e (static_error-Fails error _ _)))
handle_static-Fails system path cache_time error (short file n o s g e) =
    rw (o, handle_static) (rw s (rw (g, read_all-short file n s e) (static_error-Fails error _ _)))

-- On a terminated path `handleStatic` always returns. Either the file is available, and it writes the
-- header with the type of the path's postfix and the size, then the file, or nothing more where
-- `errno` is not 0, and sets no error; or the file cannot be opened, has no size, has too little
-- memory or is shorter than its size, and it writes nothing and sets the code 500.
pub handle_static-outcome :
    (system : System) (path : Bytes) (cache_time : ℤ) (error : Error)
    → IsCStr path
    → ((a : Available system path) × (handle_static system path cache_time error
          ≡ ok (response system path cache_time a, error)))
      ⊎ (Unavailable system path × Fails (handle_static system path cache_time error))
handle_static-outcome system path cache_time error h = elim (availability system path) [
  | inl a ↦ inl (a, handle_static-response system path cache_time error a h)
  | inr u ↦ inr (u, handle_static-Fails system path cache_time error u)
]
