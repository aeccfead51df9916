-- ===== src/Idempotency/Replayed.antt =====
-- A second request with the same key, in src/middleware/idempotency.ts.
use edgepay_cf.Prelude.{
  ℕ, ◌+◌, ◌≡◌, ◌≤◌, ◌∙◌, refl, String, Bool, true, false, List, [], ◌∷◌, ◌++◌, none, some, str_eq,
  ltb, if◌then◌else◌, arith, Bool-cases, inl, inr,
}
use edgepay_cf.Idempotency.{
  Request, Response, KeyRow, KeyTable, cached, key_conflict, Inputs, ttl_ms, is_write, is_valid_key,
  same_key, is_row_of, find_row, insert_row, is_cacheable, process, with_key, idempotent,
}

-- A request that writes, with a valid key, of a known merchant.
pub record IsKeyed (q : Request) (merchant : ℕ) (key : List ℕ) : Type 0 where
  pub writes : is_write q.method ≡ true
  pub has_key : q.idempotency_key ≡ some key
  pub valid : is_valid_key key ≡ true
  pub has_merchant : q.merchant_id ≡ some merchant

same_key_refl : (k : List ℕ) → same_key k k ≡ true
same_key_refl [] = refl
same_key_refl (c ∷ cs) = ground (arith, same_key_refl cs)

find_row-append :
    (merchant : ℕ) (key : List ℕ) (rs : List KeyRow) (r : KeyRow)
    → find_row merchant key rs ≡ none
    → is_row_of merchant key r ≡ true
    → find_row merchant key (rs ++ (r ∷ [])) ≡ some r
unfolding find_row
find_row-append merchant key [] r h k = rw k refl
find_row-append merchant key (x ∷ xs) r h k = elim (Bool-cases (is_row_of merchant key x)) [
  | inl b ↦ ground (arith, b)
  | inr b ↦ rw b (find_row-append merchant key xs r (rw b at h) k)
]

abbrev stored_row : ℕ → ℕ → ℕ → ℕ → List ℕ → String → Response → KeyRow
stored_row i at created merchant key hash r = record {
  id = i;
  merchant_id = merchant;
  key = key;
  request_body_hash = hash;
  response_status = r.status;
  response_body = r.body;
  expires_at = at + ttl_ms;
  created_at = created;
}

find_row-insert_row :
    (at created merchant : ℕ) (key : List ℕ) (hash : String) (r : Response) (t : KeyTable)
    → find_row merchant key t.rows ≡ none
    → find_row merchant key (insert_row at created merchant key hash r t).rows
      ≡ some (stored_row t.next_id at created merchant key hash r)
unfolding insert_row
find_row-insert_row at created merchant key hash r t h =
    rw (h, insert_row)
      (find_row-append merchant key t.rows (stored_row t.next_id at created merchant key hash r) h
        (ground (arith, same_key_refl key)))

module _ {S : Type 0} (sha256 : String → String) (next : S → S × Response) where
  idempotent_keyed :
      (required : Bool) (i : Inputs) (q : Request) (merchant : ℕ) (key : List ℕ) (t : KeyTable)
      (s : S)
      → IsKeyed q merchant key
      → idempotent sha256 next required i q t s
        ≡ with_key sha256 next i merchant key (sha256 q.body) t s
  unfolding idempotent
  idempotent_keyed required i q merchant key t s k =
      rw (k.writes, k.has_key, k.valid, k.has_merchant, idempotent) refl

  with_key_first :
      (i : Inputs) (merchant : ℕ) (key : List ℕ) (hash : String) (t : KeyTable) (s : S)
      → find_row merchant key t.rows ≡ none
      → is_cacheable (next s).1 ≡ true
      → i.insert_fails ≡ false
      → (with_key sha256 next i merchant key hash t s).0
        ≡ insert_row i.stored_at i.created_at merchant key hash (next s).1 t
  unfolding with_key process
  with_key_first i merchant key hash t s f c n = rw (f, c, n, with_key, process) refl

  with_key_second :
      (i : Inputs) (merchant : ℕ) (key : List ℕ) (hash : String) (t : KeyTable) (s : S) (r : KeyRow)
      → find_row merchant key t.rows ≡ some r
      → ltb r.expires_at i.now ≡ false
      → with_key sha256 next i merchant key hash t s ≡ (
        t,
        s,
        if str_eq r.request_body_hash hash
            then cached (record { status = r.response_status; body = r.response_body })
            else key_conflict,
      )
  unfolding with_key
  with_key_second i merchant key hash t s r f e =
      elim (Bool-cases (str_eq r.request_body_hash hash)) [
        | inl b ↦ rw (f, e, b, with_key) refl
        | inr b ↦ rw (f, e, b, with_key) refl
      ]

  -- A request with a new key whose response is cacheable, and whose row D1 has taken before a second request
  -- of the merchant with that key is read, is handled once: within a day the second one is answered with
  -- the stored response if its body has the same hash, and with a conflict otherwise, and changes
  -- nothing, whatever happened to the handler's state in between.
  pub second_request :
      (required required' : Bool) (i i' : Inputs) (q q' : Request) (merchant : ℕ) (key : List ℕ)
      (t : KeyTable) (s s' : S)
      → IsKeyed q merchant key
      → IsKeyed q' merchant key
      → find_row merchant key t.rows ≡ none
      → is_cacheable (next s).1 ≡ true
      → i.insert_fails ≡ false
      → i'.now ≤ i.stored_at + 86_400_000
      → let t' = (idempotent sha256 next required i q t s).0 in
        idempotent sha256 next required' i' q' t' s' ≡ (
          t',
          s',
          if str_eq (sha256 q.body) (sha256 q'.body) then cached (next s).1 else key_conflict,
        )
  second_request required required' i i' q q' merchant key t s s' k k' f c n late =
      let t' = (idempotent sha256 next required i q t s).0 in
      let stored : t'
          ≡ insert_row i.stored_at i.created_at merchant key (sha256 q.body) (next s).1 t =
        rw (idempotent_keyed required i q merchant key t s k)
          (with_key_first i merchant key (sha256 q.body) t s f c n) in
      idempotent_keyed required' i' q' merchant key t' s' k'
      ∙ with_key_second i' merchant key (sha256 q'.body) t' s'
          (stored_row t.next_id i.stored_at i.created_at merchant key (sha256 q.body) (next s).1)
          (rw stored (
            find_row-insert_row i.stored_at i.created_at merchant key (sha256 q.body) (next s).1 t
              f))
          (ground (arith, late))
