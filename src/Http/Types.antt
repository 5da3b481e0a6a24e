-- ===== src/Http/Types.antt =====
-- localpost/http/_types.py, and the method names of `http.HTTPMethod`.
use localpost_py.Prelude.{
  ℕ, ◌≡◌, refl, Bool, false, ◌||◌, Option, some, none, List, [], ◌∷◌, if◌then◌else◌,
}
use localpost_py.Bytes.{Bytes, codes, bytes_eq, lower}

abbrev pub Headers : Type 0
Headers = List (Bytes × Bytes)

-- a name is compared in lower case
abbrev pub has_header : Bytes → Headers → Bool
has_header n [] = false
has_header n ((name, v) ∷ hs) = bytes_eq (lower name) n || has_header n hs

pub record Request : Type 0 where
  pub method : Bytes
  pub path : Bytes
  pub headers : Headers

pub record Response : Type 0 where
  pub status_code : ℕ
  pub headers : Headers
  pub reason : Bytes

pub data Method : Type 0 where
  connect delete get head options patch post put trace : Method

abbrev pub method_name : Method → Bytes
method_name connect = codes "CONNECT"
method_name delete = codes "DELETE"
method_name get = codes "GET"
method_name head = codes "HEAD"
method_name options = codes "OPTIONS"
method_name patch = codes "PATCH"
method_name post = codes "POST"
method_name put = codes "PUT"
method_name trace = codes "TRACE"

-- in the order of their names
abbrev pub all_methods : List Method
all_methods = connect ∷ delete ∷ get ∷ head ∷ options ∷ patch ∷ post ∷ put ∷ trace ∷ []

find_method : Bytes → List Method → Option Method
find_method name [] = none
find_method name (m ∷ ms) = if bytes_eq name (method_name m) then some m else find_method name ms

-- `HTTPMethod(name)`; `none` is the `ValueError`
unfoldable pub parse_method : Bytes → Option Method
unfolding find_method
parse_method name = find_method name all_methods

pub parse_method-name : (m : Method) → parse_method (method_name m) ≡ some m
unfolding parse_method
parse_method-name connect = refl
parse_method-name delete = refl
parse_method-name get = refl
parse_method-name head = refl
parse_method-name options = refl
parse_method-name patch = refl
parse_method-name post = refl
parse_method-name put = refl
parse_method-name trace = refl
