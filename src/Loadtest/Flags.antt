-- ===== src/Loadtest/Flags.antt =====
-- cmd/wbsvload/main.go: the header flags of the load test, and what it prints. How the library spells
-- the name of a header and writes a duration are parameters.
use wbsv.Common.{ℕ, Option, none, some, List, [], ◌∷◌, ◌++◌, if◌then◌else◌, Bytes, codes, bytes_eq}
use wbsv.GoText.{trim_space, format_int, cut, format_nat}
use wbsv.Loadtest.{sorted_status_codes, count_of, Summary}

-- `headerFlags.Set`; `none` is its error
unfoldable pub set_header_flag : List Bytes → Bytes → Option (List Bytes)
set_header_flag flags value = elim (cut b':' value) [
  | none ↦ none
  | some found ↦ some (flags ++ value ∷ [])
]

-- `http.Header.Add` under a name as the library spells it
unfoldable pub add_value : Bytes → Bytes → List (Bytes × List Bytes) → List (Bytes × List Bytes)
add_value name value [] = (name, value ∷ []) ∷ []
add_value name value ((key, values) ∷ headers) =
    let rest = add_value name value headers in
    if bytes_eq key name then (key, values ++ value ∷ []) ∷ headers else (key, values) ∷ rest

-- the name and the value of a flag
abbrev pub named_value : Bytes → Option (Bytes × Bytes) → Bytes × Bytes
named_value raw none = (raw, [])
named_value raw (some (name, value)) = (name, value)

module _ (canonical : Bytes → Bytes) where
  -- the loop of `headerFlags.Header`
  unfoldable pub add_flags : List Bytes → List (Bytes × List Bytes) → List (Bytes × List Bytes)
  unfolding add_value
  add_flags [] headers = headers
  add_flags (raw ∷ flags) headers =
      let (name, value) = named_value raw (cut b':' raw) in
      add_flags flags (add_value (canonical (trim_space name)) (trim_space value) headers)

  -- `headerFlags.Header`
  unfoldable pub header_of_flags : List Bytes → List (Bytes × List Bytes)
  unfolding add_flags
  header_of_flags flags = add_flags flags []

abbrev pub printed : Bytes → Bytes → Bytes
printed label value = label ++ (value ++ b'\n' ∷ [])

-- the loop over the status codes
unfoldable pub print_codes : List (ℕ × ℕ) → List ℕ → Bytes
print_codes counts [] = []
print_codes counts (code ∷ rest) =
    printed (codes "  ") (format_nat code ++ (codes ": " ++ format_nat (count_of code counts)))
    ++ print_codes counts rest

-- `printResult`
unfoldable pub print_result : (ℕ → Bytes) → Summary → Bytes
unfolding print_codes
print_result format_duration result =
    printed (codes "requests:    ") (format_int result.requests)
    ++ (printed (codes "completed:   ") (format_nat result.completed)
        ++ (printed (codes "failed:      ") (format_nat result.failed)
            ++ (printed (codes "bytes read:  ") (format_nat result.bytes_read)
                ++ (printed (codes "duration:    ") (format_duration result.duration)
                    ++ (printed (codes "latency min: ") (format_duration result.min_latency)
                        ++ (printed (codes "latency avg: ") (format_duration result.avg_latency)
                            ++ (printed (codes "latency max: ") (format_duration result.max_latency)
                                ++ (printed (codes "status:") []
                                    ++ print_codes result.status_counts
                                        (sorted_status_codes result.status_counts)))))))))
