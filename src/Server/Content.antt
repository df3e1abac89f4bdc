-- ===== src/Server/Content.antt =====
-- backend/webserver/http/StaticContent.cpp: the file for a path. `Disk` has the calls of Qt:
-- `QDir::cleanPath`, `absoluteFilePath`, `canonicalFilePath`, which is empty for a missing file, and
-- the contents of a file that opens.
use everest_ui.Base.{
  ℕ, Bool, Option, none, some, ◌||◌, not, if◌then◌else◌, is_empty, take, drop, length, ◌-◌,
}
use everest_ui.Base.Text.{Text, codes, eqb, index_of, starts_with}
use everest_ui.Http.Request.{StaticResponse}

pub record Disk : Type 0 where
  pub clean_path : Text → Text
  pub absolute_file_path : (directory path : Text) → Text
  pub canonical_file_path : Text → Text
  pub read_all : Text → Option Text

-- `path.endsWith(suffix)`
abbrev pub ends_with : (suffix path : Text) → Bool
ends_with suffix path = eqb suffix (drop (length path - length suffix) path)

unfoldable pub guess_mime : Text → Text
guess_mime path =
    if ends_with (codes ".html") path
    then codes "text/html; charset=utf-8"
    else if ends_with (codes ".js") path
    then codes "application/javascript; charset=utf-8"
    else if ends_with (codes ".css") path
    then codes "text/css; charset=utf-8"
    else if ends_with (codes ".json") path
    then codes "application/json; charset=utf-8"
    else if ends_with (codes ".png") path
    then codes "image/png"
    else if ends_with (codes ".svg") path
    then codes "image/svg+xml"
    else codes "application/octet-stream"

-- The part before the query.
abbrev pub before_query : Option ℕ → Text → Text
before_query none path = path
before_query (some query) path = take query path

unfoldable pub normalize_request_path : Text → Text
normalize_request_path path =
    let normalized = before_query (index_of b'?' path) path in
    if eqb normalized (codes "/") || is_empty normalized then codes "/index.html" else normalized

abbrev pub not_found : StaticResponse
not_found = record {
  status_code = 404;
  status_text = codes "Not Found";
  body = codes "Not Found";
  mime = codes "text/plain";
}

-- The response for a file that opens, or does not.
unfoldable pub opened : Option Text → (path : Text) → StaticResponse
opened none path = not_found
opened (some text) path = record {
  status_code = 200;
  status_text = codes "OK";
  body = text;
  mime = guess_mime path;
}

module _ (disk : Disk) (root_dir : Text) where
  -- The canonical path of a request.
  unfoldable pub canonical_path : Text → Text
  canonical_path request_path =
      let relative =
        if starts_with (codes "/") request_path then drop 1 request_path else request_path in
      disk.canonical_file_path (disk.absolute_file_path root_dir (disk.clean_path relative))

  -- `relativePath` starts with `..` once it is cleaned.
  unfoldable pub leaves_root : Text → Bool
  leaves_root request_path = starts_with (codes "..") (
      disk.clean_path
        (if starts_with (codes "/") request_path then drop 1 request_path else request_path))

  unfoldable pub load_file : Text → StaticResponse
  load_file request_path =
      let path = canonical_path request_path in
      if leaves_root request_path
      then not_found
      else if is_empty path || not (starts_with root_dir path)
      then not_found
      else opened (disk.read_all path) path
