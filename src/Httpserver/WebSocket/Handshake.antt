-- ===== src/Httpserver/WebSocket/Handshake.antt =====
-- Which upgrade requests are accepted.
use wbsv.Common.{
  ◌≡◌, refl, sym, ap, ◌↔◌, true, not, Option, none, some, List, ◌++◌, arith, ==_iff, guard-eq-some,
  Bytes, codes, length, bytes_eq, bytes_eq_iff,
}
use wbsv.Http1.Request.{http_1_1, Request}
use wbsv.GoText.{trim, equal_fold}
use wbsv.Httpserver.WebSocket.{
  web_socket_key, header_equals, header_has_token, header_value_fold, has_sixteen,
  web_socket_accept_value,
}
use wbsv.Httpserver.Headers.Found.{
  HasOne, HasToken, FirstValue, any_iff, &&_iff, header_has_token_iff, header_value_fold_iff,
}
use wbsv.Http1.Header.{HeaderField, blanks, header_has_token}
use wbsv.Httpserver.Headers.{header_value_fold}

sixteen_bytes :
    (o : Option Bytes) → has_sixteen o ≡ true → (key : Bytes) × (o ≡ some key) × (length key ≡ 16)
sixteen_bytes none h = cc
sixteen_bytes (some key) h = (key, refl, (==_iff (length key) 16).0 h)

header_equals_iff :
    (headers : List HeaderField) (name value : Bytes)
    → (header_equals headers name value ≡ true)
      ↔ HasOne
          (λ (field : HeaderField).
            (equal_fold field.name name ≡ true)
            × (equal_fold (trim blanks field.value) value ≡ true))
          headers
unfolding header_equals
header_equals_iff headers name value =
    any_iff _ _
      (λ field. &&_iff (equal_fold field.name name) (equal_fold (trim blanks field.value) value))
      headers

module _ (decode : Bytes → Option Bytes) (encode sha1 : Bytes → Bytes) where
  -- A request that asks for the protocol, with a key of 16 bytes.
  pub record IsUpgrade (request : Request) (accept : Bytes) : Type 0 where
    pub method : equal_fold request.request_line.method (codes "GET") ≡ true
    pub version : request.request_line.version ≡ codes "HTTP/1.1"
    pub connection :
        HasOne
          (λ (field : HeaderField).
            (equal_fold field.name (codes "Connection") ≡ true) × HasToken (codes "Upgrade") field)
          request.headers
    pub upgrade :
        HasOne
          (λ (field : HeaderField).
            (equal_fold field.name (codes "Upgrade") ≡ true)
            × (equal_fold (trim blanks field.value) (codes "websocket") ≡ true))
          request.headers
    pub protocol : FirstValue (codes "Sec-WebSocket-Version") request.headers (codes "13")
    pub value : Bytes
    pub sent : FirstValue (codes "Sec-WebSocket-Key") request.headers value
    pub key : Bytes
    pub decodes : decode (trim blanks value) ≡ some key
    pub sixteen : length key ≡ 16
    pub accept_is :
        accept ≡ encode (sha1 (trim blanks value ++ codes "258EAFA5-E914-47DA-95CA-C5AB0DC85B11"))

  web_socket_accept_value_sound :
      (request : Request) (accept : Bytes)
      → web_socket_accept_value decode encode sha1 request ≡ some accept
      → IsUpgrade request accept
  unfolding web_socket_accept_value
  web_socket_accept_value_sound request accept h =
      let (method, h1) =
        guard-eq-some (not (equal_fold request.request_line.method (codes "GET"))) _ h in
      let (version, h2) =
        guard-eq-some (not (bytes_eq request.request_line.version http_1_1)) _ h1 in
      let (connection, h3) =
        guard-eq-some
          (not (header_has_token request.headers (codes "Connection") (codes "Upgrade"))) _ h2 in
      let (upgrade, h4) =
        guard-eq-some (not (header_equals request.headers (codes "Upgrade") (codes "websocket"))) _
          h3 in
      let (protocol, h5) =
        guard-eq-some
          (not (
            bytes_eq (header_value_fold request.headers (codes "Sec-WebSocket-Version"))
              (codes "13")))
          _ h4 in
      let (sixteen, h6) =
        guard-eq-some (not (has_sixteen (decode (web_socket_key request)))) _ h5 in
      let (key, decodes, long) =
        sixteen_bytes (decode (web_socket_key request)) (ground (arith, sixteen)) in
      record {
        method = ground (arith, method);
        version = (bytes_eq_iff request.request_line.version http_1_1).0 (ground (arith, version));
        connection =
            (header_has_token_iff request.headers (codes "Connection") (codes "Upgrade")).0
              (ground (arith, connection));
        upgrade =
            (header_equals_iff request.headers (codes "Upgrade") (codes "websocket")).0
              (ground (arith, upgrade));
        protocol =
            (header_value_fold_iff request.headers (codes "Sec-WebSocket-Version") (codes "13")).0 (
              (bytes_eq_iff (header_value_fold request.headers (codes "Sec-WebSocket-Version"))
                  (codes "13")).0
                (ground (arith, protocol)));
        value = header_value_fold request.headers (codes "Sec-WebSocket-Key");
        sent = (header_value_fold_iff request.headers (codes "Sec-WebSocket-Key") _).0 refl;
        key = key;
        decodes = decodes;
        sixteen = long;
        accept_is = ground (arith, h6);
      }

  web_socket_accept_value_complete :
      (request : Request) (accept : Bytes)
      → IsUpgrade request accept
      → web_socket_accept_value decode encode sha1 request ≡ some accept
  unfolding web_socket_accept_value
  web_socket_accept_value_complete request accept d =
      let version = (bytes_eq_iff request.request_line.version http_1_1).1 d.version in
      let connection =
        (header_has_token_iff request.headers (codes "Connection") (codes "Upgrade")).1
          d.connection in
      let upgrade =
        (header_equals_iff request.headers (codes "Upgrade") (codes "websocket")).1 d.upgrade in
      let protocol =
        (header_value_fold_iff request.headers (codes "Sec-WebSocket-Version") (codes "13")).1
          d.protocol in
      let same =
        (header_value_fold_iff request.headers (codes "Sec-WebSocket-Key") d.value).1 d.sent in
      let thirteen = (bytes_eq_iff (codes "13") (codes "13")).1 refl in
      let long = (==_iff (length d.key) 16).1 d.sixteen in
      rw (d.method, version, connection, upgrade, protocol, thirteen, same, d.decodes, long)
        (ap some (sym d.accept_is))

-- `webSocketAcceptValue` accepts exactly the GET requests of HTTP/1.1 that ask to upgrade the connection
-- to the WebSocket protocol, version 13, with a key that decodes to 16 bytes, and the value is the
-- encoded hash of the key and the protocol's GUID.
pub web_socket_accept_value_iff :
    (decode : Bytes → Option Bytes) (encode sha1 : Bytes → Bytes) (request : Request)
    (accept : Bytes)
    → (web_socket_accept_value decode encode sha1 request ≡ some accept)
      ↔ IsUpgrade decode encode sha1 request accept
web_socket_accept_value_iff decode encode sha1 request accept = (
  web_socket_accept_value_sound decode encode sha1 request accept,
  web_socket_accept_value_complete decode encode sha1 request accept,
)
