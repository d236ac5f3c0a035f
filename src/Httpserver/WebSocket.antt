-- ===== src/Httpserver/WebSocket.antt =====
-- internal/httpserver/websocket.go: the handshake. SHA-1 and base64 are the standard library's, and
-- parameters: `decode` gives `none` for its error.
pub mod Handshake
use wbsv.Common.{
  Bool, false, not, ◌&&◌, Option, none, some, List, ◌++◌, ◌==◌, if◌then◌else◌, Bytes, codes, length,
  any, bytes_eq, pos,
}
use wbsv.Http1.Header.{header_has_token, blanks, HeaderField}
use wbsv.Http1.Request.{http_1_1, Request}
use wbsv.Httpserver.App.{send_header, set, AppRequest, Writer}
use wbsv.GoText.{trim, equal_fold}
use wbsv.Httpserver.Headers.{header_value_fold}

abbrev pub web_socket_guid : Bytes
web_socket_guid = codes "258EAFA5-E914-47DA-95CA-C5AB0DC85B11"

-- `headerEquals`
unfoldable pub header_equals : List HeaderField → Bytes → Bytes → Bool
header_equals headers name value =
    any
      (λ (header : HeaderField).
        equal_fold header.name name && equal_fold (trim blanks header.value) value)
      headers

abbrev pub has_sixteen : Option Bytes → Bool
has_sixteen none = false
has_sixteen (some decoded) = length decoded == 16

abbrev pub web_socket_key : Request → Bytes
web_socket_key request = trim blanks (header_value_fold request.headers (codes "Sec-WebSocket-Key"))

module _ (decode : Bytes → Option Bytes) (encode sha1 : Bytes → Bytes) where
  -- `webSocketAcceptValue`; `none` is `ErrInvalidWebSocketUpgrade`
  unfoldable pub web_socket_accept_value : Request → Option Bytes
  unfolding header_equals
  web_socket_accept_value request =
      if not (equal_fold request.request_line.method (codes "GET"))
      then none
      else if not (bytes_eq request.request_line.version http_1_1)
      then none
      else if not (header_has_token request.headers (codes "Connection") (codes "Upgrade"))
      then none
      else if not (header_equals request.headers (codes "Upgrade") (codes "websocket"))
      then none
      else if not (
          bytes_eq (header_value_fold request.headers (codes "Sec-WebSocket-Version")) (codes "13"))
      then none
      else if not (has_sixteen (decode (web_socket_key request)))
      then none
      else some (encode (sha1 (web_socket_key request ++ web_socket_guid)))

  abbrev pub upgraded : Writer → Option Bytes → Option Writer
  upgraded w none = none
  upgraded w (some accept) = some (
      set (codes "Sec-WebSocket-Accept") accept (
        set (codes "Connection") (codes "Upgrade")
          (set (codes "Upgrade") (codes "websocket") (send_header w (pos 101)))))

  -- `AcceptWebSocket`
  unfoldable pub accept_web_socket : Writer → AppRequest → Option Writer
  unfolding web_socket_accept_value
  accept_web_socket w request = upgraded w (web_socket_accept_value request.http)
