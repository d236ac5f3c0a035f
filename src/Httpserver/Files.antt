-- ===== src/Httpserver/Files.antt =====
-- internal/httpserver/response_writer.go, `SendFile`. The file system is a parameter, and so are the
-- table of `mime.TypeByExtension`, which depends on the machine, and the format of a time.
use wbsv.Common.{ℕ, Bool, true, Option, none, some, if◌then◌else◌, Bytes, codes, ℤ}
use wbsv.Http1.Response.{Stream}
use wbsv.Httpserver.ResponseWriter.{set_header, stream_body, ResponseWriter}
use wbsv.GoText.{path_extension}
use wbsv.Http1.Header.{is_empty}
use wbsv.Httpserver.Cache.{set_last_modified}

-- What `Stat` says of an open file.
pub record FileInfo : Type 0 where
  pub is_dir : Bool
  pub mod_time : ℕ
  pub size : ℤ

-- An open file: its content, and what `Stat` returns.
pub record File : Type 0 where
  pub content : Stream
  pub stat : Option FileInfo

module _ (format_time : ℕ → Bytes) (type_by_extension : Bytes → Bytes)
    (open_file : Bytes → Option File) where
  abbrev pub typed_for : ResponseWriter → Bytes → ResponseWriter
  typed_for w path =
      let content_type = type_by_extension (path_extension path) in
      if is_empty content_type then w else set_header w (codes "Content-Type") content_type

  -- the response to a file that was opened; `none` is an error, and the file is closed then
  unfoldable pub send_info : ResponseWriter → Bytes → File → Option FileInfo → Option ResponseWriter
  send_info w path file none = none
  send_info w path file (some info) =
      if info.is_dir
      then none
      else some (
          stream_body
            (set_last_modified format_time
              (set_header (typed_for w path) (codes "Accept-Ranges") (codes "bytes")) info.mod_time)
            file.content true info.size)

  abbrev pub send_opened : ResponseWriter → Bytes → Option File → Option ResponseWriter
  send_opened w path none = none
  send_opened w path (some file) = send_info w path file file.stat

  -- `SendFile`
  unfoldable pub send_file : ResponseWriter → Bytes → Option ResponseWriter
  unfolding send_info
  send_file w path = send_opened w path (open_file path)
