-- ===== src/Static/Mime.antt =====
-- The type that `mimeGuess` of src/static.c finds for a path.
use chttpd.Prelude.{
  ◌≢◌, ◌≡◌, refl, ap, inl, inr, Bool-cases, none, some, [], ◌∷◌, ◌++◌, ◌==◌, arith, All-of_append,
  if◌then◌else◌,
}
use mathlib.Core.Path.{subst}
use mathlib.Core.List.{append_assoc}
use chttpd.Libc.{Bytes, ok, cstr, IsCStr, strrchr, tolower}
use chttpd.Libc.Strings.{Without}
use chttpd.Libc.Text.{codes, bytes_eq, lower}
use chttpd.Util.Compare.{strcmp_icase-lower}
use chttpd.Static.{mime_of, mime_guess}

-- The types by postfix, in any case of its letters.
unfoldable pub mime_type : Bytes → Bytes
unfolding bytes_eq lower
mime_type postfix =
    if bytes_eq (lower postfix) (codes ".html")
    then codes "text/html"
    else if bytes_eq (lower postfix) (codes ".js")
    then codes "text/javascript"
    else if bytes_eq (lower postfix) (codes ".css")
    then codes "text/css"
    else if bytes_eq (lower postfix) (codes ".json")
    then codes "application/json"
    else if bytes_eq (lower postfix) (codes ".xml")
    then codes "application/xml"
    else if bytes_eq (lower postfix) (codes ".txt")
    then codes "text/plain"
    else codes "application/octet-stream"

mime_of-mime_type : (p : Bytes) → IsCStr p → mime_of (cstr p) ≡ ok (mime_type p)
unfolding mime_of mime_type lower tolower
mime_of-mime_type p h =
    let at = λ (b : Bytes) (k : IsCStr b). strcmp_icase-lower p b [] [] h k in
    rw
      (
        at (codes ".html") (ground arith),
        at (codes ".js") (ground arith),
        at (codes ".css") (ground arith),
        at (codes ".json") (ground arith),
        at (codes ".xml") (ground arith),
        at (codes ".txt") (ground arith),
      )
      (ground arith)

-- Where the last dot of a path is.
pub data LastDot (path : Bytes) : Type 0 where
  no_dot : Without b'.' path → LastDot path
  dot : (stem ext : Bytes) → path ≡ stem ++ b'.' ∷ ext → Without b'.' ext → LastDot path

-- The type of a path, by what follows its last dot.
abbrev pub type_of : {path : Bytes} → LastDot path → Bytes
type_of (no_dot w) = codes "application/octet-stream"
type_of (dot stem ext e w) = mime_type (b'.' ∷ ext)

strrchr-none : (s : Bytes) → IsCStr s → Without b'.' s → strrchr (cstr s) b'.' ≡ ok none
unfolding strrchr
strrchr-none [] h w = refl
strrchr-none (c ∷ s) h w = rw (strrchr-none s h.1 w.1) (ground arith)

strrchr-some :
    (stem ext : Bytes)
    → IsCStr stem
    → IsCStr ext
    → Without b'.' ext
    → strrchr (stem ++ b'.' ∷ cstr ext) b'.' ≡ ok (some (b'.' ∷ cstr ext))
unfolding strrchr
strrchr-some [] ext h k w = rw (strrchr-none ext k w) refl
strrchr-some (c ∷ stem) ext h k w = rw (strrchr-some stem ext h.1 k w) (ground arith)

pub last_dot : (path : Bytes) → LastDot path
last_dot [] = no_dot tt
last_dot (c ∷ path) = elim (last_dot path) [
  | dot stem ext e w ↦ dot (c ∷ stem) ext (ap (◌∷◌ c) e) w
  | no_dot w ↦ elim (Bool-cases (c == b'.')) [
    | inl e ↦ dot [] path (ap (λ d. d ∷ path) (ground arith)) w
    | inr e ↦ no_dot (ground arith, w)
  ]
]

-- `mimeGuess` on a terminated path reads in bounds, and gives the type of what follows the last dot,
-- in any case of the letters.
pub mime_guess-type_of :
    (path : Bytes) → IsCStr path → (d : LastDot path) → mime_guess (cstr path) ≡ ok (type_of d)
unfolding mime_guess
mime_guess-type_of path h (no_dot w) = rw (strrchr-none path h w) refl
mime_guess-type_of path h (dot stem ext e w) =
    let parts = All-of_append (λ c. c ≢ 0) stem (b'.' ∷ ext) (subst IsCStr e h) in
    rw (e, append_assoc stem)
      (rw (strrchr-some stem ext parts.0 parts.1.1 w) (mime_of-mime_type (b'.' ∷ ext) parts.1))
