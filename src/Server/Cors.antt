-- ===== src/Server/Cors.antt =====
-- Which requests `isCorsRequest` of src/main.c accepts, and which methods `getAllowedCorsMethods`
-- allows.
use chttpd.Prelude.{
  ℕ, ◌/◌, ◌%◌, ◌≡◌, refl, inl, inr, Bool, true, false, not, ◌&&◌, ◌||◌, Bool-cases, none, some,
  List, [], ◌∷◌, arith, All, if◌then◌else◌, ◌==◌,
}
use chttpd.Libc.{Bytes, ok, cstr, IsCStr}
use chttpd.Libc.Text.{codes, bytes_eq, lower}
use chttpd.Util.{StringPair, strcmp_icase}
use chttpd.Util.Compare.{url_matches, strcmp_icase-lower}
use chttpd.Http.{HttpMethod, HttpRequest, method_bit}
use chttpd.Pl2.{deref}
use chttpd.Config.{Config, CorsConfig, method_eq}
use chttpd.Server.{
  url_compare, cors_flags, is_cors_request, set_bit, allowed_methods, get_allowed_cors_methods,
}
use chttpd.Server.Routes.{url_compare-fits}

unfoldable pub any {ℓ} : {A : Type ℓ} → (A → Bool) → List A → Bool
any test [] = false
any test (x ∷ xs) = test x || any test xs

-- Whether a text is the word, in any case of its letters.
unfoldable pub says : Bytes → Bytes → Bool
says word text = bytes_eq (lower text) (lower word)

abbrev pub IsPair : StringPair → Type 0
IsPair p = IsCStr p.first × IsCStr p.second

abbrev names_referer : StringPair → Bool
names_referer h = says (codes "Referer") h.first

-- A header of another name with the value `Origin`.
abbrev holds_origin : StringPair → Bool
holds_origin h = not (names_referer h) && says (codes "Origin") h.second

word_cstr : IsCStr (codes "Referer") × IsCStr (codes "Origin")
word_cstr = (ground arith, ground arith)

strcmp-says :
    (word text : Bytes)
    → IsCStr text
    → IsCStr word
    → strcmp_icase (cstr text) (cstr word) ≡ ok (says word text)
unfolding says
strcmp-says word text h k = strcmp_icase-lower text word [] [] h k

cors_flags-any :
    (headers : List StringPair) (r o : Bool)
    → All IsPair headers
    → cors_flags headers r o
      ≡ ok ((r || any names_referer headers) && (o || any holds_origin headers))
unfolding cors_flags any
cors_flags-any [] r o h = ground arith
cors_flags-any (p ∷ headers) r o ((a, b), h) =
    rw
      (
        strcmp-says (codes "Referer") p.first a word_cstr.0,
        strcmp-says (codes "Origin") p.second b word_cstr.1,
        cors_flags-any headers true o h,
        cors_flags-any headers r true h,
        cors_flags-any headers r o h,
      )
      (elim (Bool-cases (names_referer p)) [
        | inl e ↦ rw e (ground arith)
        | inr e ↦ rw e (elim (Bool-cases (says (codes "Origin") p.second)) [
          | inl f ↦ rw f (ground arith)
          | inr f ↦ rw f (ground arith)
        ])
      ])

-- `isCorsRequest` accepts a request whose headers are terminated strings exactly if one header is
-- named `Referer` and another, not so named, has the value `Origin`; the case of letters is ignored.
-- A header that is named `Origin` does not count.
pub is_cors_request-any :
    (request : HttpRequest)
    → All IsPair request.headers
    → is_cors_request request
      ≡ ok (any names_referer request.headers && any holds_origin request.headers)
unfolding is_cors_request
is_cors_request-any request h = cors_flags-any request.headers false false h

-- Whether the bit of a method is set.
unfoldable pub allows : ℕ → HttpMethod → Bool
unfolding method_bit
allows n m = n / method_bit m % 2 == 1

set_bit-allows :
    (n : ℕ) (a m : HttpMethod) → allows (set_bit n (method_bit a)) m ≡ (method_eq m a || allows n m)
unfolding allows set_bit method_bit
set_bit-allows n HttpMethod.get HttpMethod.get = ground arith
set_bit-allows n HttpMethod.get HttpMethod.post = ground arith
set_bit-allows n HttpMethod.get HttpMethod.options = ground arith
set_bit-allows n HttpMethod.post HttpMethod.get = ground arith
set_bit-allows n HttpMethod.post HttpMethod.post = ground arith
set_bit-allows n HttpMethod.post HttpMethod.options = ground arith
set_bit-allows n HttpMethod.options HttpMethod.get = ground arith
set_bit-allows n HttpMethod.options HttpMethod.post = ground arith
set_bit-allows n HttpMethod.options HttpMethod.options = ground arith

-- An item with a path.
abbrev pub HasPath : CorsConfig → Type 0
HasPath item = (p : Bytes) × (item.path ≡ some p) × IsCStr p

unfoldable pub fits_item : Bool → Bytes → CorsConfig → Bool
fits_item ignore_case path item = elim item.path [
  | none ↦ false
  | some p ↦ if ignore_case then url_matches (lower path) (lower p) else url_matches path p
]

allowed_methods-any :
    (ignore_case : Bool) (items : List CorsConfig) (path : Bytes) (n : ℕ)
    → IsCStr path
    → All HasPath items
    → (k : ℕ) × (allowed_methods items path (url_compare ignore_case) n ≡ ok k)
      × ((m : HttpMethod)
          → allows k m ≡ (
              any (λ i. fits_item ignore_case path i && method_eq m i.http_method) items
              || allows n m))
unfolding allowed_methods any fits_item deref
allowed_methods-any ignore_case [] path n h t = (n, refl, λ m. refl)
allowed_methods-any ignore_case (i ∷ items) path n h ((p, is, c), t) =
    elim (Bool-cases (fits_item ignore_case path i)) [
      | inl e ↦
          let (k, runs, says_k) =
            allowed_methods-any ignore_case items path (set_bit n (method_bit i.http_method)) h t in
          (
            k,
            rw is (rw (url_compare-fits ignore_case path p h c) (rw (rw is at e) runs)),
            λ m. rw (says_k m, set_bit-allows n i.http_method m, e) (ground arith),
          )
      | inr e ↦
          let (k, runs, says_k) = allowed_methods-any ignore_case items path n h t in
          (
            k,
            rw is (rw (url_compare-fits ignore_case path p h c) (rw (rw is at e) runs)),
            λ m. rw (says_k m, e) refl,
          )
    ]

none_set : (m : HttpMethod) → allows 0 m ≡ false
unfolding allows method_bit
none_set HttpMethod.get = refl
none_set HttpMethod.post = refl
none_set HttpMethod.options = refl

-- Where every CORS item has a path, `getAllowedCorsMethods` returns, and has set the bits of exactly
-- the methods of the items whose path fits, with or without regard to case.
pub get_allowed_cors_methods-any :
    (config : Config) (ignore_case : Bool) (path : Bytes)
    → IsCStr path
    → All HasPath config.cors_config
    → (k : ℕ) × (get_allowed_cors_methods config path (url_compare ignore_case) ≡ ok k)
      × ((m : HttpMethod)
          → allows k m
            ≡ any
                (λ i. fits_item ignore_case path i && method_eq m i.http_method)
                config.cors_config)
unfolding get_allowed_cors_methods
get_allowed_cors_methods-any config ignore_case path h t =
    let (k, runs, says_k) = allowed_methods-any ignore_case config.cors_config path 0 h t in
    (k, runs, λ m. rw (says_k m, none_set m) (ground arith))
