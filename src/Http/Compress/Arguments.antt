-- ===== src/Http/Compress/Arguments.antt =====
-- localpost/http/compress.py: the checks of `compress_handler` on its arguments, and their defaults.
use localpost_py.Prelude.{
  ◌≡◌, ◌⊎◌, refl, ℤ, pos, negsuc, Bool, true, false, Option, none, some, List, [], ◌∷◌, arith,
  Bool-cases, inl, inr, All, if◌then◌else◌,
}
use localpost_py.Bytes.{Bytes, codes, bytes_eq, is_empty}
use localpost_py.Bytes.Laws.{bytes_eq_iff}

-- `DEFAULT_COMPRESSIBLE_TYPES`
abbrev pub default_compressible_types : List Bytes
default_compressible_types =
    codes "text/html"
    ∷ codes "text/plain"
    ∷ codes "text/css"
    ∷ codes "text/xml"
    ∷ codes "text/csv"
    ∷ codes "text/javascript"
    ∷ codes "text/event-stream"
    ∷ codes "application/json"
    ∷ codes "application/javascript"
    ∷ codes "application/xml"
    ∷ codes "application/xhtml+xml"
    ∷ codes "application/manifest+json"
    ∷ codes "application/x-yaml"
    ∷ codes "application/rss+xml"
    ∷ codes "application/atom+xml"
    ∷ codes "image/svg+xml"
    ∷ []

pub data ArgumentError : Type 0 where
  import_error value_error : ArgumentError

-- `_check_algorithm_available`; the first argument says whether brotli is installed
check_algorithm_available : Bool → Bytes → Option ArgumentError
check_algorithm_available installed name =
    if bytes_eq name (codes "br")
    then if installed then none else some import_error
    else if bytes_eq name (codes "gzip")
    then none
    else some value_error

check_each : Bool → List Bytes → Option ArgumentError
unfolding check_algorithm_available
check_each installed [] = none
check_each installed (name ∷ names) = elim (check_algorithm_available installed name) [
  | some e ↦ some e
  | none ↦ check_each installed names
]

abbrev check_min_size : Option ArgumentError → ℤ → Option ArgumentError
check_min_size (some e) min_size = some e
check_min_size none (negsuc n) = some value_error
check_min_size none (pos n) = none

-- the exception of `compress_handler`, if it raises one
unfoldable pub check_arguments : Bool → List Bytes → ℤ → Option ArgumentError
unfolding check_each
check_arguments installed algorithms min_size =
    if is_empty algorithms
    then some value_error
    else check_min_size (check_each installed algorithms) min_size

-- an encoding that there is an encoder for
abbrev pub IsSupported : Bool → Bytes → Type 0
IsSupported installed name = (name ≡ codes "br") × (installed ≡ true) ⊎ (name ≡ codes "gzip")

check_algorithm-IsSupported :
    (installed : Bool) (name : Bytes)
    → check_algorithm_available installed name ≡ none
    → IsSupported installed name
unfolding check_algorithm_available
check_algorithm-IsSupported installed name h = elim (Bool-cases (bytes_eq name (codes "br"))) [
  | inl e ↦ inl ((bytes_eq_iff name (codes "br")).0 e, ground (arith, e, h))
  | inr e ↦ inr ((bytes_eq_iff name (codes "gzip")).0 (ground (arith, e, h)))
]

check_each-IsSupported :
    (installed : Bool) (names : List Bytes)
    → check_each installed names ≡ none
    → All (IsSupported installed) names
unfolding check_each
check_each-IsSupported installed [] h = tt
check_each-IsSupported installed (name ∷ names) h = (
  check_algorithm-IsSupported installed name (ground (arith, h)),
  check_each-IsSupported installed names (ground (arith, h)),
)

-- If `compress_handler` raises nothing then there is at least one algorithm, and each is gzip, or
-- brotli with the extra installed.
pub check_arguments-IsSupported :
    (installed : Bool) (algorithms : List Bytes) (min_size : ℤ)
    → check_arguments installed algorithms min_size ≡ none
    → (is_empty algorithms ≡ false) × All (IsSupported installed) algorithms
unfolding check_arguments
check_arguments-IsSupported installed algorithms min_size h = (
  ground (arith, h),
  check_each-IsSupported installed algorithms (checked _ min_size (ground (arith, h))),
)
  where
    checked : (o : Option ArgumentError) (n : ℤ) → check_min_size o n ≡ none → o ≡ none
    checked none n e = refl
    checked (some x) n e = ground (arith, e)
