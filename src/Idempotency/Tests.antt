-- ===== src/Idempotency/Tests.antt =====
-- A run of src/middleware/idempotency.ts with a handler that counts its calls.
use edgepay_cf.Prelude.{
  ℕ, ◌+◌, ◌≡◌, String, false, true, [], some, refl, replicate, str_eq, if◌then◌else◌, arith,
}
use edgepay_cf.Idempotency.{
  Request, Response, KeyTable, Inputs, post, cached, key_conflict, idempotent, with_key, process,
  find_row, is_valid_key,
}
use edgepay_cf.Idempotency.Replayed.{IsKeyed, second_request}

abbrev same : String → String
same s = s

abbrev counted : ℕ → ℕ × Response
counted n = (n + 1, record { status = 201; body = "created" })

abbrev inputs : Inputs
inputs = record {
  now = 10;
  stored_at = 10;
  created_at = 10;
  delete_fails = false;
  insert_fails = false;
}

abbrev request : Request
request = record {
  method = post;
  idempotency_key = some (replicate 8 97);
  merchant_id = some 1;
  body = "{}";
}

abbrev no_keys : KeyTable
no_keys = record { rows = []; next_id = 1 }

handled_once : (idempotent same counted true inputs request no_keys 0).1 ≡ 1
unfolding idempotent with_key process find_row is_valid_key
handled_once = refl

request-IsKeyed : IsKeyed request 1 (replicate 8 97)
unfolding is_valid_key
request-IsKeyed = record { writes = refl; has_key = refl; valid = refl; has_merchant = refl }

second_request_example :
    let t' = (idempotent same counted true inputs request no_keys 0).0 in
    idempotent same counted true inputs request t' 1 ≡ (
      t',
      1,
      if str_eq "{}" "{}" then cached (record { status = 201; body = "created" }) else key_conflict,
    )
unfolding find_row
second_request_example =
    second_request same counted true true inputs inputs request request 1 (replicate 8 97) no_keys 0
      1 request-IsKeyed request-IsKeyed refl refl refl (omega arith)
