-- ===== src/Httpserver/RangeResponse.antt =====
-- internal/httpserver/range.go: the responses to a range request.
use wbsv.Common.{false, Option, none, some, ◌++◌, if◌then◌else◌, Bytes, codes, ℤ, pos}
use wbsv.Http1.Response.{Stream}
use wbsv.Httpserver.Range.{stream_range_refuses, ByteRange}
use wbsv.Httpserver.ResponseWriter.{stream_body, set_header, write_header, ResponseWriter}
use wbsv.GoText.{format_int}

unfoldable pub content_range : ByteRange → ℤ → Bytes
content_range range size =
    codes "bytes "
    ++ format_int range.start
    ++ codes "-"
    ++ format_int range.last
    ++ codes "/"
    ++ format_int size

-- `StreamRange`; `section` is what `io.NewSectionReader` reads for a start and a length, which is no
-- `io.Closer`. `none` is `ErrInvalidRange`.
unfoldable pub stream_range :
    ResponseWriter → (ℤ → ℤ → Stream) → ℤ → ByteRange → Option ResponseWriter
unfolding content_range
stream_range w section size range =
    if stream_range_refuses range size
    then none
    else (let ranged =
          set_header (set_header w (codes "Accept-Ranges") (codes "bytes")) (codes "Content-Range")
            (content_range range size) in
        some (
          stream_body (write_header ranged (pos 206)) (section range.start range.len) false
            range.len))

-- `WriteRangeNotSatisfiable`
unfoldable pub write_range_not_satisfiable : ResponseWriter → ℤ → ResponseWriter
write_range_not_satisfiable w size =
    write_header
      (set_header (set_header w (codes "Accept-Ranges") (codes "bytes")) (codes "Content-Range")
        (codes "bytes */" ++ format_int size))
      (pos 416)
