-- ===== src/Http1/Response/Payload.antt =====
-- The bodies of responses: what is written for them, and the chunked encoding of RFC 9112.
use wbsv.Common.{
  ℕ, zero, suc, ◌-◌, ◌≤◌, ◌≡◌, refl, ap, ◌≢◌, Option, none, some, List, [], ◌∷◌, ◌++◌, append-nil,
  append_assoc, arith, Bytes, codes, length, take, length-append, ℤ, pos_part,
}
use wbsv.Http1.Errors.{Ending, eof}
use wbsv.Http1.LineReader.{crlf}
use wbsv.Http1.Sink.{◌>>◌, write, Writes, write-Writes, finish-Writes, >>-Writes}
use wbsv.Http1.Response.{
  Stream, Response, format_hex, write_chunk, write_chunked_reader, chunked_payload,
  write_chunked_body, copy_n, fixed_payload, write_fixed_body,
}
use wbsv.Http1.Response.Hex.{hex_from, hex_from-format_hex, format_hex-ne-nil}
use mathlib.Core.List.{flatten}
use mathlib.Core.Path.{subst}

-- The chunked encoding: chunks that are not empty, each behind its size in hexadecimal, and a last
-- chunk of size 0.
pub data IsChunked : Bytes → Bytes → Type 0 where
  last : {out : Bytes} → out ≡ codes "0" ++ crlf ++ crlf → IsChunked out []
  chunk :
      {out rest payload whole : Bytes} (size data_part : Bytes)
      → hex_from 0 size ≡ some (length data_part)
      → size ≢ []
      → data_part ≢ []
      → out ≡ size ++ crlf ++ (data_part ++ (crlf ++ rest))
      → whole ≡ data_part ++ payload
      → IsChunked rest payload
      → IsChunked out whole

-- The bytes of one chunk.
abbrev chunk_bytes : Bytes → Bytes
chunk_bytes p = format_hex (length p) ++ crlf ++ (p ++ crlf)

write_chunk-Writes : (p : Bytes) → Writes (write_chunk p) (chunk_bytes p)
unfolding write_chunk
write_chunk-Writes p =
    >>-Writes (write (format_hex (length p) ++ crlf)) (write p >> write crlf)
      (write-Writes (format_hex (length p) ++ crlf))
      (>>-Writes (write p) (write crlf) (write-Writes p) (write-Writes crlf))

-- The encoding of the chunks that are not empty, with what follows them.
chunks_bytes : List Bytes → Bytes
chunks_bytes [] = []
chunks_bytes ([] ∷ chunks) = chunks_bytes chunks
chunks_bytes ((c ∷ p) ∷ chunks) = chunk_bytes (c ∷ p) ++ chunks_bytes chunks

write_chunked_reader-Writes :
    (chunks : List Bytes) → Writes (write_chunked_reader chunks eof) (chunks_bytes chunks)
unfolding write_chunked_reader chunks_bytes
write_chunked_reader-Writes [] = finish-Writes
write_chunked_reader-Writes ([] ∷ chunks) = write_chunked_reader-Writes chunks
write_chunked_reader-Writes ((c ∷ p) ∷ chunks) =
    >>-Writes (write_chunk (c ∷ p)) (write_chunked_reader chunks eof) (write_chunk-Writes (c ∷ p))
      (write_chunked_reader-Writes chunks)

abbrev last_bytes : Bytes
last_bytes = codes "0" ++ crlf ++ crlf

chunk_IsChunked :
    (p : Bytes) {rest payload : Bytes}
    → p ≢ []
    → IsChunked rest payload
    → IsChunked (chunk_bytes p ++ rest) (p ++ payload)
chunk_IsChunked p {rest} ne h =
    chunk (format_hex (length p)) p (hex_from-format_hex (length p)) (format_hex-ne-nil (length p))
      ne (simp append_assoc) refl h

chunks_bytes-IsChunked :
    (chunks : List Bytes) → IsChunked (chunks_bytes chunks ++ last_bytes) (flatten chunks)
unfolding chunks_bytes flatten
chunks_bytes-IsChunked [] = last refl
chunks_bytes-IsChunked ([] ∷ chunks) = chunks_bytes-IsChunked chunks
chunks_bytes-IsChunked ((c ∷ p) ∷ chunks) =
    rw (append_assoc (chunk_bytes (c ∷ p)) (chunks_bytes chunks) last_bytes)
      (chunk_IsChunked (c ∷ p) (λ e. cc) (chunks_bytes-IsChunked chunks))

-- What a response's body is: that of its reader, where it has one, and its bytes otherwise.
abbrev pub payload_of : Response → Bytes
payload_of response = elim response.body_reader [
  | some stream ↦ flatten stream.chunks
  | none ↦ response.body
]

-- The reader of the body, if there is one, ends with EOF.
abbrev pub EndsWell : Option Stream → Type 0
EndsWell none = Unit
EndsWell (some stream) = stream.ending ≡ eof

payload_chunks : Option Stream → Bytes → List Bytes
payload_chunks (some stream) body = stream.chunks
payload_chunks none body = body ∷ []

chunked_payload-Writes :
    (reader : Option Stream) (body : Bytes)
    → EndsWell reader
    → Writes (chunked_payload reader body) (chunks_bytes (payload_chunks reader body))
unfolding chunked_payload payload_chunks
chunked_payload-Writes (some stream) body h = rw h (write_chunked_reader-Writes stream.chunks)
chunked_payload-Writes none [] h = unfold chunks_bytes in finish-Writes
chunked_payload-Writes none (c ∷ body) h =
    unfold chunks_bytes in rw append-nil (write_chunk-Writes (c ∷ body))

payload_IsChunked :
    (reader : Option Stream) (body : Bytes)
    → IsChunked
        (chunks_bytes (payload_chunks reader body) ++ last_bytes)
        (elim reader [ some stream ↦ flatten stream.chunks | none ↦ body ])
unfolding payload_chunks flatten
payload_IsChunked (some stream) body = chunks_bytes-IsChunked stream.chunks
payload_IsChunked none body =
    subst (IsChunked (chunks_bytes (body ∷ []) ++ last_bytes)) (append-nil body)
      (chunks_bytes-IsChunked (body ∷ []))

-- A chunked body is written as the chunked encoding of the body: of the response's bytes, or of all
-- that its reader delivers up to EOF.
pub write_chunked_body-IsChunked :
    (response : Response)
    → EndsWell response.body_reader
    → (out : Bytes) × Writes (write_chunked_body response) out × IsChunked out (payload_of response)
unfolding write_chunked_body
write_chunked_body-IsChunked response h =
    let chunks = payload_chunks response.body_reader response.body in
    (
      chunks_bytes chunks ++ last_bytes,
      >>-Writes (chunked_payload response.body_reader response.body) (write last_bytes)
          (chunked_payload-Writes response.body_reader response.body h) (write-Writes last_bytes),
      payload_IsChunked response.body_reader response.body,
    )

take-append_more :
    (n : ℕ) (xs ys : Bytes) → take n (xs ++ ys) ≡ take n xs ++ take (n - length xs) ys
take-append_more zero xs ys = let e : 0 - length xs ≡ 0 = omega arith in rw e
take-append_more (suc n) [] ys = let e : suc n - 0 ≡ suc n = omega arith in rw e
take-append_more (suc n) (x ∷ xs) ys =
    let e : suc n - suc (length xs) ≡ n - length xs = omega arith in
    rw e (ap (◌∷◌ x) (take-append_more n xs ys))

copy_n-Writes :
    (chunks : List Bytes) (ending : Ending) (n : ℕ)
    → n ≤ length (flatten chunks)
    → Writes (copy_n chunks ending n) (take n (flatten chunks))
unfolding copy_n flatten
copy_n-Writes chunks ending zero h = finish-Writes
copy_n-Writes [] ending (suc n) h = elim h [ ]
copy_n-Writes (c ∷ chunks) ending (suc n) h = rw take-append_more (
    >>-Writes (write (take (suc n) c)) (copy_n chunks ending (suc n - length c))
      (write-Writes (take (suc n) c))
      (copy_n-Writes chunks ending (suc n - length c)
        (omega (arith, length-append c (flatten chunks)))))

-- The bytes of a body of fixed length.
abbrev pub fixed_bytes : Option Stream → ℤ → Bytes → Bytes
fixed_bytes none len body = body
fixed_bytes (some stream) len body = take (pos_part len) (flatten stream.chunks)

-- A body's reader delivers the length that was announced for it.
abbrev pub HasLength : Option Stream → ℤ → Type 0
HasLength none len = Unit
HasLength (some stream) len = pos_part len ≤ length (flatten stream.chunks)

-- A body of fixed length is written as it is, or as the announced number of bytes of its reader.
pub write_fixed_body-Writes :
    (response : Response)
    → HasLength response.body_reader response.body_length
    → Writes
        (write_fixed_body response)
        (fixed_bytes response.body_reader response.body_length response.body)
unfolding write_fixed_body
write_fixed_body-Writes response h =
    of_parts response.body_reader response.body_length response.body h
  where
    of_parts :
        (reader : Option Stream) (len : ℤ) (body : Bytes)
        → HasLength reader len
        → Writes (fixed_payload reader len body) (fixed_bytes reader len body)
    of_parts (some stream) len body h = copy_n-Writes stream.chunks stream.ending (pos_part len) h
    of_parts none len [] h = finish-Writes
    of_parts none len (c ∷ body) h = write-Writes (c ∷ body)
