-- ===== src/Api/Routes.antt =====
-- The two patterns that NewServer of internal/api/server.go gives to its mux, and what the handler
-- `execute` reads of a request.
use contextq_server.Prelude.{
  ◌≡◌, refl, arith, Bool, true, not, ◌&&◌, ◌||◌, List, [], ◌∷◌, ◌++◌, Option, none, some,
  if◌then◌else◌, Text, Bytes, codes, same, same_iff,
}
use contextq_server.Strings.{split_more, split_more-cut}
use contextq_server.Names.{IsPlainName}
use contextq_server.Api.Execute.{Request}

pub data Route : Type 0 where
  health_route : Route
  exec_route : Text → Route

-- A wildcard stands for one element of a path; a path with another of these elements is redirected.
unfoldable pub is_element : Text → Bool
unfolding same
is_element s = not (same s [] || same s (codes ".") || same s (codes ".."))

-- `/v1/{namespace}/exec`, split at its slashes
unfoldable pub exec_name : List Text → Option Route
unfolding is_element same
exec_name (before ∷ version ∷ name ∷ last ∷ []) =
    if same before [] && same version (codes "v1") && is_element name && same last (codes "exec")
    then some (exec_route name)
    else none
exec_name parts = none

-- The route of a method and a path without percent escapes. GET stands for HEAD, too.
unfoldable pub route : Text → Text → Option Route
unfolding exec_name split_more same
route method path =
    if (same method (codes "GET") || same method (codes "HEAD")) && same path (codes "/healthz")
    then some health_route
    else if same method (codes "POST")
    then exec_name (split_more b'/' 4 path)
    else none

-- what `execute` is given of a routed request
unfoldable pub request_of : Option Route → Text → Bytes → Option Request
request_of none authorization body = none
request_of (some health_route) authorization body = none
request_of (some (exec_route name)) authorization body =
    some (record { name = name; authorization = authorization; body = body })

is_element-IsPlainName : (n : Text) → IsPlainName n → is_element n ≡ true
unfolding is_element
is_element-IsPlainName n plain = ground (
  arith,
  plain.not_empty,
  plain.not_dot,
  plain.not_dot_dot,
  same_iff n [],
  same_iff n (codes "."),
  same_iff n (codes ".."),
)

exec_name_ok :
    (n : Text)
    → is_element n ≡ true
    → exec_name ([] ∷ codes "v1" ∷ n ∷ codes "exec" ∷ []) ≡ some (exec_route n)
unfolding exec_name
exec_name_ok n h = rw h refl

-- A POST request to a namespace's path goes to `execute`.
pub route-exec :
    (n : Text)
    → IsPlainName n
    → route (codes "POST") (codes "/v1/" ++ n ++ codes "/exec") ≡ some (exec_route n)
unfolding route
route-exec n plain =
    rw (split_more-cut b'/' 1 n (codes "exec") plain.no_slash)
      (exec_name_ok n (is_element-IsPlainName n plain))
