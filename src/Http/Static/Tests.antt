-- ===== src/Http/Static/Tests.antt =====
-- localpost/http/static.py at concrete files and requests.
use localpost_py.Prelude.{
  ◌+◌, ◌≤◌, ◌<◌, ◌≡◌, ◌↔◌, refl, pos, Bool, true, false, Option, none, some, [], ◌∷◌, ◌++◌,
  if◌then◌else◌,
}
use localpost_py.Bytes.{
  Bytes, codes, bytes_eq, drop_prefix, split, has_byte, lower, partition, strip,
}
use localpost_py.Bytes.Decimal.{print_ℕ, parse_int}
use localpost_py.Http.Types.{Headers, Request, Response}
use localpost_py.Http.Static.{
  Stat, FileSystem, Config, Reply, complete, sendfile, open_error, parse_range, etag_of,
  if_none_match_matches, find_header, find_file, resolve, handle, method_not_allowed,
}
use localpost_py.Http.Static.Containment.{IsVetted, resolve_iff}
use localpost_py.Http.Static.Replies.{IsFresh, status_of, handle_not_modified, handle-SendsWithin}

-- one directory with one file of ten bytes
abbrev root_path : Bytes
root_path = codes "/srv"

abbrev file_path : Bytes
file_path = codes "/srv/a"

abbrev is_some : {A : Type 0} → Option A → Bool
is_some none = false
is_some (some x) = true

abbrev files : FileSystem Bytes
files = record {
  unquote = λ b. some b;
  resolve_under = λ d t. d ++ b'/' ∷ t;
  is_relative_to = λ p d. is_some (drop_prefix d p);
  is_dir = λ p. some (bytes_eq p root_path);
  stat = λ p.
      if bytes_eq p file_path
      then some (record { is_regular = true; size = 10; mtime = 5; mtime_ns = 7 })
      else none;
  can_open = λ p. true;
  guess_type = λ p. none;
  format_date = print_ℕ;
  parse_date = λ b. some (pos 5);
}

abbrev site : Config Bytes
site = record {
  root = root_path;
  url_prefix = codes "/";
  cache_control = none;
  index = some (codes "index.html");
}

abbrev ask : Headers → Request
ask headers = record { method = codes "GET"; path = codes "/a"; headers = headers }

abbrev a_stat : Stat
a_stat = record { is_regular = true; size = 10; mtime = 5; mtime_ns = 7 }

abbrev tail_answer : Reply Bytes
tail_answer = handle files site (ask ((codes "range", codes "bytes=-4") ∷ []))

abbrev none_sent : Response
none_sent = record { status_code = 0; headers = []; reason = [] }

abbrev response_of : Response → Reply Bytes → Response
response_of other (complete response body) = response
response_of other (sendfile response file offset length) = response
response_of other (open_error file) = other

suffix_sent : tail_answer ≡ sendfile (response_of none_sent tail_answer) file_path 6 4
unfolding handle drop_prefix has_byte split find_header parse_range lower partition strip parse_int
suffix_sent = refl

tag_of_a : etag_of a_stat ≡ codes "\"a-7\""
unfolding etag_of
tag_of_a = refl

not_allowed :
    status_of
      (handle files site (record { method = codes "POST"; path = codes "/a"; headers = [] }))
    ≡ 405
unfolding handle method_not_allowed
not_allowed = refl

weak_tag_matches : if_none_match_matches (codes "\"x\", W/\"a-7\"") (etag_of a_stat) ≡ true
unfolding if_none_match_matches etag_of strip split drop_prefix
weak_tag_matches = refl

parent_refused : resolve files site (codes "b/../a") ≡ none
unfolding resolve has_byte split
parent_refused = refl

resolve_iff_example : (resolve files site (codes "a") ≡ some file_path) ↔ (
    (decoded : Bytes) × (files.unquote (codes "a") ≡ some decoded)
    × IsVetted files site decoded file_path)
resolve_iff_example = resolve_iff files site (codes "a") file_path

a_found : find_file files site (ask []) ≡ some (file_path, a_stat)
unfolding find_file drop_prefix has_byte split
a_found = refl

abbrev tagged : Headers
tagged = (codes "if-none-match", codes "W/\"a-7\"") ∷ []

handle_not_modified_example :
    (status_of (handle files site (ask tagged)) ≡ 304) ↔ IsFresh files site tagged a_stat
unfolding find_file drop_prefix has_byte split
handle_not_modified_example = handle_not_modified files site (ask tagged) file_path a_stat refl refl

handle-SendsWithin_example :
    (codes "GET" ≡ codes "GET")
    × (st : Stat) × (find_file files site (ask ((codes "range", codes "bytes=-4") ∷ []))
        ≡ some (file_path, st))
    × (0 < 4)
    × (6 + 4 ≤ st.size)
    × (find_header (codes "content-length") ((response_of none_sent tail_answer).headers)
        ≡ some (print_ℕ 4))
handle-SendsWithin_example =
    handle-SendsWithin files site (ask ((codes "range", codes "bytes=-4") ∷ []))
      (response_of none_sent tail_answer) file_path 6 4 suffix_sent
