-- ===== src/Httpserver/Middleware/RequestId/Fresh.antt =====
-- The ids that the server makes up are different.
use wbsv.Common.{
  ℕ, zero, suc, ◌+◌, ◌-◌, ◌%◌, ◌^◌, ◌<◌, ◌≡◌, sym, ap, ◌∙◌, ◌≢◌, ◌++◌, arith, some-injective, Bytes,
  codes, drop,
}
use wbsv.Httpserver.App.{World}
use wbsv.Httpserver.Middleware.RequestId.{next_request_id}
use wbsv.GoText.{parse_digits, format_nat}
use wbsv.GoText.Number.{parse_digits-format_nat}

-- The state after as many ids were made up.
unfoldable pub after_ids : ℕ → World → World
unfolding next_request_id
after_ids zero world = world
after_ids (suc n) world = (next_request_id (after_ids n world)).1

counter-after_ids :
    (n : ℕ) (world : World)
    → world.counter < 2 ^ 64
    → (after_ids n world).counter ≡ (world.counter + n) % 2 ^ 64
unfolding after_ids next_request_id
counter-after_ids zero world h = omega arith
counter-after_ids (suc n) world h = omega (arith, counter-after_ids n world h)

format_nat-inj : (m n : ℕ) → format_nat m ≡ format_nat n → m ≡ n
format_nat-inj m n h =
    some-injective m n
      (sym (parse_digits-format_nat m) ∙ ap parse_digits h ∙ parse_digits-format_nat n)

behind_prefix : (a b : Bytes) → codes "wbsv-" ++ a ≡ codes "wbsv-" ++ b → a ≡ b
behind_prefix a b h = ap (drop 5) h

-- Two ids that the server makes up are different, when fewer than 2 ^ 64 - 1 others lie between them.
pub next_request_id-differs :
    (world : World) (m n : ℕ)
    → world.counter < 2 ^ 64
    → m < n
    → n - m < 2 ^ 64
    → (next_request_id (after_ids m world)).0 ≢ (next_request_id (after_ids n world)).0
unfolding next_request_id
next_request_id-differs world m n small less near h =
    let cm = counter-after_ids m world small in
    let cn = counter-after_ids n world small in
    let same =
      format_nat-inj (((after_ids m world).counter + 1) % 2 ^ 64)
        (((after_ids n world).counter + 1) % 2 ^ 64)
        (behind_prefix (format_nat (((after_ids m world).counter + 1) % 2 ^ 64))
          (format_nat (((after_ids n world).counter + 1) % 2 ^ 64)) h) in
    omega (arith, cm, cn, same)
