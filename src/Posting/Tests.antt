-- ===== src/Posting/Tests.antt =====
-- Postings of src/services/ledger.ts on a small platform, and the theorems at concrete inputs.
use Prim.Native.Nat.{compare}
use edgepay_cf.Prelude.{
  ℕ, ◌+◌, ◌*◌, ◌-◌, ◌≡◌, refl, inr, true, List, [], ◌∷◌, none, some, arith, ◌==◌, str_eq,
  if◌then◌else◌,
}
use edgepay_cf.Prelude.Int.{pos, neg, ◌+ℤ◌, pos_part}
use edgepay_cf.Prelude.Texts.{codes, decimal, join}
use edgepay_cf.Ledger.Types.{debit, credit, whole, PostingResult, posted, PostingPayload, payment}
use edgepay_cf.Ledger.Chart.{asset, revenue, expense, default_chart_of_accounts, is_debit_normal}
use edgepay_cf.Ledger.Shape.{validate_posting_shape, sum_entries}
use edgepay_cf.Ledger.Shape.Balanced.{IsWellShaped}
use edgepay_cf.Ledger.Book.{seed_rows, apply_deltas, journal_rows}
use edgepay_cf.Ledger.State.{LedgerEnv, fresh, get_merchant_id}
use edgepay_cf.Ledger.Mirror.{Mirror, answers}
use edgepay_cf.Ledger.Post.{
  post_transaction, post_inner, post_seeded, write_posting, resolve_tenant, commit, after_commit,
  kick_outbox_alarm, seed_chart,
}
use edgepay_cf.Ledger.Funds.{check_balances, collect_deltas, check_funds}
use edgepay_cf.Money.{Decimals, money_to_minor_strict, to_minor_units}
use edgepay_cf.Posting.{
  LedgerAccount, Platform, done, Call, build_payload, build_entries, build_entry, post,
  get_account_by_code,
}
use edgepay_cf.Posting.Entries.{payment_tx_id, payment_input, post_payment_ledger_entry}
use edgepay_cf.Posting.Held.{Unwritten}
use edgepay_cf.Posting.Once.{run_posts, payment_posted_once}
use edgepay_cf.Posting.WellShaped.{IsAmount, payment-IsWellShaped}

-- The digits of a text with two decimals, as a number.
abbrev scan : ℕ → List ℕ → ℕ
scan n [] = n
scan n (c ∷ cs) = if c == 46 then scan n cs else scan (n * 10 + (c - 48)) cs

abbrev pub decimals : Decimals
decimals = record {
  scaled = λ a. pos (scan 0 (codes a));
  of_minor = λ n. decimal (pos_part n);
  cmp = λ a b. compare (scan 0 (codes a)) (scan 0 (codes b));
  is_zero = λ a. scan 0 (codes a) == 0;
}

abbrev pub env : LedgerEnv
env = record { outbox_enabled = true; production = true; name_number = none }

abbrev empty_mirror : Mirror
empty_mirror = record { postings = []; transactions = []; transaction_seq = 1; entries = [] }

abbrev pub clearing : LedgerAccount
clearing = record {
  id = 2;
  merchant_id = 1;
  code = "1010";
  name = "Gateway Clearing";
  account_type = asset;
  currency = "BDT";
}

abbrev pub income : LedgerAccount
income = record {
  id = 10;
  merchant_id = 1;
  code = "4000";
  name = "Payment Revenue";
  account_type = revenue;
  currency = "BDT";
}

abbrev pub fees : LedgerAccount
fees = record {
  id = 12;
  merchant_id = 1;
  code = "5000";
  name = "Gateway Fees Expense";
  account_type = expense;
  currency = "BDT";
}

abbrev pub platform : Platform
platform = record {
  accounts = clearing ∷ income ∷ fees ∷ [];
  account_seq = 13;
  mirror = empty_mirror;
  books = λ k. fresh 0;
}

abbrev pub call : Call
call = record { env = env; decimals = decimals; reply = answers; now = 5; later = 6; uuid = "u" }

abbrev pub payload : PostingPayload
payload = record {
  tx_id = payment_tx_id 1 7;
  merchant_id = 1;
  reference_type = payment;
  reference_id = some (decimal 7);
  description = (payment_input clearing income fees 1 7 "100.00" "2.50" "BDT").description;
  currency = "BDT";
  entries =
      record {
        account_code = "1010";
        d1_account_id = 2;
        direction = debit;
        amount = "100.00";
        amount_minor = whole (pos 10_000);
      }
      ∷ record {
        account_code = "4000";
        d1_account_id = 10;
        direction = credit;
        amount = "100.00";
        amount_minor = whole (pos 10_000);
      }
      ∷ record {
        account_code = "5000";
        d1_account_id = 12;
        direction = debit;
        amount = "2.50";
        amount_minor = whole (pos 250);
      }
      ∷ record {
        account_code = "1010";
        d1_account_id = 2;
        direction = credit;
        amount = "2.50";
        amount_minor = whole (pos 250);
      }
      ∷ [];
}

built :
    build_payload decimals platform.accounts
      (some (payment_tx_id 1 7))
      "u"
      (payment_input clearing income fees 1 7 "100.00" "2.50" "BDT")
    ≡ done payload
unfolding build_payload build_entries build_entry money_to_minor_strict to_minor_units str_eq
built = refl

hundred : IsAmount decimals "100.00" 10_000
unfolding money_to_minor_strict to_minor_units
hundred = record { read = refl; positive = omega arith; bounded = omega arith }

two_fifty : IsAmount decimals "2.50" 250
unfolding money_to_minor_strict to_minor_units
two_fifty = record { read = refl; positive = omega arith; bounded = omega arith }

pub payload-IsWellShaped : IsWellShaped payload
payload-IsWellShaped =
    payment-IsWellShaped decimals platform.accounts "u" clearing income fees 1 7 "100.00" "2.50"
      "BDT" 10_000 250 payload ((λ e. cc e), ((λ e. cc e), ((λ e. cc e), tt))) hundred
      (inr two_fifty) built

payment-IsWellShaped_example : IsWellShaped payload
payment-IsWellShaped_example =
    payment-IsWellShaped decimals platform.accounts "u" clearing income fees 1 7 "100.00" "2.50"
      "BDT" 10_000 250 payload ((λ e. cc e), ((λ e. cc e), ((λ e. cc e), tt))) hundred
      (inr two_fifty) built

abbrev pub accepted : PostingResult
accepted = record {
  status = posted;
  tx_id = payment_tx_id 1 7;
  posted_at = 5;
  ledger_transaction_id = none;
  error_code = none;
}

pub paid : (post_payment_ledger_entry call 1 7 "100.00" "2.50" "BDT" platform).1 ≡ done accepted
unfolding post_payment_ledger_entry post build_payload build_entries build_entry
    money_to_minor_strict to_minor_units post_transaction post_inner post_seeded write_posting
    resolve_tenant commit after_commit kick_outbox_alarm seed_chart check_balances collect_deltas
    check_funds get_account_by_code get_merchant_id fresh seed_rows default_chart_of_accounts
    is_debit_normal apply_deltas journal_rows validate_posting_shape sum_entries ◌+ℤ◌ neg str_eq
    join decimal
paid = refl

abbrev pub once : Platform
once = (post_payment_ledger_entry call 1 7 "100.00" "2.50" "BDT" platform).0

payment_posted_once_example :
    Unwritten
      (once.books 1)
      ((post_payment_ledger_entry call 1 7 "90.00" "0.00" "BDT" once).0.books 1)
unfolding run_posts
payment_posted_once_example =
    payment_posted_once call call 1 7 "100.00" "2.50" "BDT" "90.00" "0.00" "BDT" platform accepted
      [] paid 1
