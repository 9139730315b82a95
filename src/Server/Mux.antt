-- ===== src/Server/Mux.antt =====
-- `http.ServeMux` on patterns that name one path each, for requests other than CONNECT.
pub mod Laws
use host_scanner.Prelude.{
  ℕ, ◌==◌, Bool, true, false, ◌&&◌, ◌||◌, not, Option, none, some, List, [], ◌∷◌, ◌++◌,
  if◌then◌else◌,
}
use host_scanner.Prelude.Bytes.{Bytes, codes, bytes_eq, has_suffix}
use host_scanner.Prelude.FilePath.{slash, clean}
use host_scanner.Prelude.Dict.{Dict, lookup}
use host_scanner.Http.{Writer, write_header, write, http_error}
use host_scanner.Server.State.{Request, Served, replied, Handler}

abbrev rooted : Bytes → Bytes
rooted [] = slash ∷ []
rooted (c ∷ s) = if c == slash then c ∷ s else slash ∷ c ∷ s

-- `cleanPath`: `path.Clean` of the rooted path, with the slash at the end if there was one.
unfoldable pub clean_path : Bytes → Bytes
clean_path p =
    let np = clean (rooted p) in
    if has_suffix (rooted p) (slash ∷ []) && not (bytes_eq np (slash ∷ []))
    then np ++ (slash ∷ [])
    else np

-- What the multiplexer makes of a path: a registered entry, a redirect, or neither.
pub data Match {ℓ} (H : Type ℓ) : Type ℓ where
  found : H → Match H
  moved : Bytes → Match H
  not_found : Match H

abbrev pub or_not_found {ℓ} : {H : Type ℓ} → Option H → Match H
or_not_found none = not_found
or_not_found (some h) = found h

-- A path that is not clean is redirected, whether or not the clean one is registered.
unfoldable pub find_handler {ℓ} : {H : Type ℓ} → Dict H → Bytes → Match H
find_handler table path =
    if bytes_eq (clean_path path) path
    then or_not_found (lookup path table)
    else moved (clean_path path)

-- `htmlEscape`
unfoldable pub html_escape : Bytes → Bytes
html_escape [] = []
html_escape (c ∷ s) =
    let rest = html_escape s in
    if c == b'&'
    then codes "&amp;" ++ rest
    else if c == b'<'
    then codes "&lt;" ++ rest
    else if c == b'>'
    then codes "&gt;" ++ rest
    else if c == b'"'
    then codes "&#34;" ++ rest
    else if c == b'\''
    then codes "&#39;" ++ rest
    else c ∷ rest

-- The location of a redirect: the path with the query of the request.
abbrev pub redirect_url : Request → Bytes → Bytes
redirect_url r path = if bytes_eq r.raw_query [] then path else path ++ (b'?' ∷ r.raw_query)

abbrev pub with_location : Bytes → Writer → Writer
with_location url w = record w { location = some url }

abbrev pub with_type : Bytes → Writer → Writer
with_type url w = record w {
  location = some url;
  content_type = some (codes "text/html; charset=utf-8");
}

-- A redirect without a type that is set before, for GET, for HEAD and for another method.
unfoldable pub redirect_by : Bool → Bool → Bytes → Writer → Writer
redirect_by true is_head url w =
    write (codes "<a href=\"" ++ (html_escape url ++ codes "\">Moved Permanently</a>.\n\n"))
      (write_header 301 (with_type url w))
redirect_by false true url w = write_header 301 (with_type url w)
redirect_by false false url w = write_header 301 (with_location url w)

unfoldable pub redirect_with : Option Bytes → Request → Bytes → Writer → Writer
redirect_with (some t) r url w = write_header 301 (with_location url w)
redirect_with none r url w =
    redirect_by (bytes_eq r.method (codes "GET")) (bytes_eq r.method (codes "HEAD")) url w

-- `http.Redirect` with 301: the type is set and the body is written as the method wants it, unless
-- a type is set.
unfoldable pub redirect : Request → Bytes → Writer → Writer
redirect r url w = redirect_with w.content_type r url w

abbrev pub serve_match : Request → Match Handler → Handler
serve_match r (found h) s w = h s w
serve_match r (moved path) s w = replied (redirect r (redirect_url r path) w) s
serve_match r not_found s w = replied (http_error (codes "404 page not found") 404 w) s

-- `(*ServeMux).ServeHTTP`
unfoldable pub serve_mux : Dict Handler → Request → Handler
serve_mux table r = serve_match r (find_handler table r.path)
