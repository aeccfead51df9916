-- ===== src/Refunds/Bounded.antt =====
-- That the refunds of a payment stay within what was captured (src/services/refund.ts), in any order of
-- the statements of several calls.
use edgepay_cf.Prelude.{
  ℕ, ◌+◌, ◌≤◌, ◌≡◌, ◌⊎◌, inl, inr, refl, String, Bool, true, ◌&&◌, List, [], ◌∷◌, ◌++◌, map, Option,
  none, some, arith, Bool-cases, Option-cases, ◌==◌,
}
use edgepay_cf.Refunds.{
  RefundStatus, RefundRow, RefundableTransaction, RefundDb, CreateRefundInput, RefundError,
  RefundOutcome, returns, throws, reserved_by, total_refunded, captured, is_within, check_refund,
  reserve_refund, GatewayRefund, not_asked, unsupported, breaks, issued, set_gateway_id,
  set_refund_failed, settle_gateway, create_refund, or_zero,
}
use edgepay_cf.Refunds.Workflow.{settle_row}

RefundOutcome-cases {ℓ} :
    {A : Type ℓ} (o : RefundOutcome A)
    → ((a : A) × (o ≡ returns a)) ⊎ ((e : RefundError) × (o ≡ throws e))
RefundOutcome-cases (returns a) = inl (a, refl)
RefundOutcome-cases (throws e) = inr (e, refl)

abbrev limit : Option ℕ → ℕ
limit none = 0
limit (some c) = c + 1

module _ (value : String → Option ℕ) where
  -- What is refunded or reserved of a transaction is at most what was captured and 0.001; nothing, if
  -- there is no such transaction.
  abbrev pub IsBounded : ℕ → ℕ → RefundDb → Type 0
  IsBounded k merchant db =
      total_refunded value k merchant db.refunds ≤ limit (captured value k db.transactions)

  total_refunded-append :
      (k merchant : ℕ) (rs : List RefundRow) (r : RefundRow)
      → total_refunded value k merchant (rs ++ (r ∷ []))
        ≡ total_refunded value k merchant rs + reserved_by value k merchant r
  unfolding total_refunded
  total_refunded-append k merchant [] r = omega arith
  total_refunded-append k merchant (s ∷ rs) r = omega (arith, total_refunded-append k merchant rs r)

  total_refunded-map :
      (f : RefundRow → RefundRow) (k merchant : ℕ) (rs : List RefundRow)
      → ((r : RefundRow) → reserved_by value k merchant (f r) ≤ reserved_by value k merchant r)
      → total_refunded value k merchant (map f rs) ≤ total_refunded value k merchant rs
  unfolding total_refunded
  total_refunded-map f k merchant [] h = omega arith
  total_refunded-map f k merchant (r ∷ rs) h =
      omega (arith, h r, total_refunded-map f k merchant rs h)

  set_refund_failed_less :
      (j k merchant : ℕ) (r : RefundRow)
      → reserved_by value k merchant (set_refund_failed j r) ≤ reserved_by value k merchant r
  set_refund_failed_less j k merchant r = elim (Bool-cases (r.id == j)) [
    | inl q ↦ rw q (ground arith)
    | inr q ↦ rw q (omega arith)
  ]

  set_gateway_id_less :
      (j : ℕ) (g : String) (k merchant : ℕ) (r : RefundRow)
      → reserved_by value k merchant (set_gateway_id j g r) ≤ reserved_by value k merchant r
  set_gateway_id_less j g k merchant r = elim (Bool-cases (r.id == j)) [
    | inl q ↦ rw q (omega arith)
    | inr q ↦ rw q (omega arith)
  ]

  settle_row_less :
      (j : ℕ) (s : RefundStatus) (k merchant : ℕ) (r : RefundRow)
      → reserved_by value k merchant (settle_row j s r) ≤ reserved_by value k merchant r
  settle_row_less j s k merchant r = ground arith

  is_within-limit : (n : ℕ) (o : Option ℕ) → is_within value n o ≡ true → n ≤ limit o
  is_within-limit n none h = ground (arith, h)
  is_within-limit n (some c) h = ground (arith, h)

  -- The new row counts for its own transaction and merchant only.
  appended_bounded :
      (k merchant : ℕ) (rs : List RefundRow) (r : RefundRow) (n : ℕ)
      (ts : List RefundableTransaction)
      → or_zero (value r.amount) ≡ n
      → total_refunded value r.transaction_id r.merchant_id rs + n
        ≤ limit (captured value r.transaction_id ts)
      → total_refunded value k merchant rs ≤ limit (captured value k ts)
      → total_refunded value k merchant (rs ++ (r ∷ [])) ≤ limit (captured value k ts)
  appended_bounded k merchant rs r n ts v own b =
      elim (Bool-cases ((r.transaction_id == k) && (r.merchant_id == merchant))) [
        | inr q ↦
            let part : reserved_by value k merchant r ≡ 0 = ground (arith, q) in
            omega (arith, total_refunded-append k merchant rs r, part, b)
        | inl q ↦
            let same : k ≡ r.transaction_id = ground (arith, q) in
            let same' : merchant ≡ r.merchant_id = ground (arith, q) in
            let part : reserved_by value k merchant r ≤ n = ground (arith, q, v) in
            let own' : total_refunded value k merchant rs + n ≤ limit (captured value k ts) =
              rw (same, same') own in
            omega (arith, total_refunded-append k merchant rs r, part, own')
      ]

  reserve_refund-IsBounded :
      (public_id currency : String) (i : CreateRefundInput) (db : RefundDb) (k merchant : ℕ)
      → IsBounded k merchant db
      → IsBounded k merchant (reserve_refund value public_id currency i db).0
  unfolding reserve_refund
  reserve_refund-IsBounded public_id currency i db k merchant b =
      let n =
        total_refunded value i.transaction_id i.merchant_id db.refunds + or_zero (value i.amount) in
      elim (Bool-cases (is_within value n (captured value i.transaction_id db.transactions))) [
        | inr q ↦ rw (q, reserve_refund) b
        | inl q ↦
            rw (q, reserve_refund)
              (appended_bounded k merchant db.refunds _ (or_zero (value i.amount)) db.transactions
                refl (is_within-limit n (captured value i.transaction_id db.transactions) q) b)
      ]

  settle_gateway-IsBounded :
      (reply : GatewayRefund) (j : ℕ) (db : RefundDb) (k merchant : ℕ)
      → IsBounded k merchant db
      → IsBounded k merchant (settle_gateway reply j db).0
  unfolding settle_gateway
  settle_gateway-IsBounded not_asked j db k merchant b = b
  settle_gateway-IsBounded (issued none) j db k merchant b = b
  settle_gateway-IsBounded (issued (some g)) j db k merchant b = omega (
    arith,
    total_refunded-map (set_gateway_id j g) k merchant db.refunds
        (set_gateway_id_less j g k merchant),
    b,
  )
  settle_gateway-IsBounded unsupported j db k merchant b = omega (
    arith,
    total_refunded-map (set_refund_failed j) k merchant db.refunds
        (set_refund_failed_less j k merchant),
    b,
  )
  settle_gateway-IsBounded breaks j db k merchant b = b

  -- A statement of a call of createRefund, or of a refund's workflow.
  pub data Step (db : RefundDb) : RefundDb → Type 0 where
    reserves :
        (public_id currency : String) (i : CreateRefundInput)
        → Step db (reserve_refund value public_id currency i db).0
    settles : (reply : GatewayRefund) (j : ℕ) → Step db (settle_gateway reply j db).0
    ends :
        (j : ℕ) (s : RefundStatus)
        → Step db (record db { refunds = map (settle_row j s) db.refunds })

  pub data Run (db : RefundDb) : RefundDb → Type 0 where
    stays : Run db db
    goes_on : (x y : RefundDb) → Run db x → Step x y → Run db y

  Step-IsBounded :
      (k merchant : ℕ) (x y : RefundDb) → Step x y → IsBounded k merchant x → IsBounded k merchant y
  Step-IsBounded k merchant x y (reserves public_id currency i) b =
      reserve_refund-IsBounded public_id currency i x k merchant b
  Step-IsBounded k merchant x y (settles reply j) b =
      settle_gateway-IsBounded reply j x k merchant b
  Step-IsBounded k merchant x y (ends j s) b = omega (
    arith,
    total_refunded-map (settle_row j s) k merchant x.refunds (settle_row_less j s k merchant),
    b,
  )

  -- If the refunds of a transaction that are pending or completed are within what was captured and 0.001,
  -- they are so after any sequence of reservations, answers of gateways and ends of workflows, of
  -- this and of other transactions.
  pub Run-IsBounded :
      (k merchant : ℕ) (x y : RefundDb) → IsBounded k merchant x → Run x y → IsBounded k merchant y
  Run-IsBounded k merchant x y b stays = b
  Run-IsBounded k merchant x z b (goes_on y z' r s) =
      Step-IsBounded k merchant y z s (Run-IsBounded k merchant x y b r)

  -- A call of createRefund makes such statements only.
  pub create_refund-Run :
      (planned : String → Bool) (reply : GatewayRefund) (public_id : String) (i : CreateRefundInput)
      (db : RefundDb)
      → Run db (create_refund value planned reply public_id i db).0
  unfolding create_refund
  create_refund-Run planned reply public_id i db =
      elim (RefundOutcome-cases (check_refund value planned i db)) [
        | inr (e, q) ↦ rw (q, create_refund) stays
        | inl (t, q) ↦
            let run = reserve_refund value public_id t.currency i db in
            let first : Run db run.0 = goes_on db run.0 stays (reserves public_id t.currency i) in
            elim (Option-cases run.1) [
              | inl u ↦ rw (q, u, create_refund) first
              | inr (k, u) ↦ rw (q, u, create_refund) (goes_on run.0 _ first (settles reply k))
            ]
      ]
