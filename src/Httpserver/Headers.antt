-- ===== src/Httpserver/Headers.antt =====
-- The helpers on header lists of internal/httpserver (cors.go, compression.go).
pub mod Found
use wbsv.Common.{Bool, List, [], ◌∷◌, if◌then◌else◌, Bytes, any}
use wbsv.GoText.{split, trim, equal_fold}
use wbsv.Http1.Header.{HeaderField, blanks, is_empty}

-- `headerValueFold`: the value of the first field of this name, or the empty text
unfoldable pub header_value_fold : List HeaderField → Bytes → Bytes
header_value_fold [] name = []
header_value_fold (header ∷ headers) name =
    let rest = header_value_fold headers name in
    if equal_fold header.name name then header.value else rest

-- `hasHeader`
unfoldable pub has_header : List HeaderField → Bytes → Bool
has_header headers name = any (λ (header : HeaderField). equal_fold header.name name) headers

-- `withoutHeader`
unfoldable pub without_header : List HeaderField → Bytes → List HeaderField
without_header [] name = []
without_header (header ∷ headers) name =
    let rest = without_header headers name in
    if equal_fold header.name name then rest else header ∷ rest

keep_parts : List Bytes → List Bytes
keep_parts [] = []
keep_parts (part ∷ parts) =
    let rest = keep_parts parts in
    if is_empty (trim blanks part) then rest else trim blanks part ∷ rest

-- `splitHeaderList`, `splitCommaList`
unfoldable pub split_header_list : Bytes → List Bytes
unfolding keep_parts
split_header_list value = keep_parts (split b',' value)
