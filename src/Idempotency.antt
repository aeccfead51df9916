-- ===== src/Idempotency.antt =====
-- Idempotency keys: src/middleware/idempotency.ts. The rest of the request's handling (`next`) is an
-- argument, which acts on a state of its own, and so is the hash (`sha256`). A time is in milliseconds.
pub mod Replayed
mod Tests
use edgepay_cf.Prelude.{
  ℕ, ◌+◌, String, Bool, true, false, not, ◌&&◌, ◌||◌, List, [], ◌∷◌, ◌++◌, Option, none, some,
  length, keep, str_eq, ◌==◌, ltb, leb, if◌then◌else◌,
}

pub data Method : Type 0 where
  get head post put patch other : Method

abbrev pub is_write : Method → Bool
is_write post = true
is_write put = true
is_write patch = true
is_write _ = false

-- `/^[a-zA-Z0-9_-]{8,64}$/`, on a key's code units.
abbrev pub is_key_char : ℕ → Bool
is_key_char c =
    (leb 97 c && leb c 122)
    || (leb 65 c && leb c 90)
    || (leb 48 c && leb c 57)
    || (c == 95)
    || (c == 45)

abbrev pub every_key_char : List ℕ → Bool
every_key_char [] = true
every_key_char (c ∷ cs) = is_key_char c && every_key_char cs

unfoldable pub is_valid_key : List ℕ → Bool
is_valid_key k = leb 8 (length k) && leb (length k) 64 && every_key_char k

abbrev pub same_key : List ℕ → List ℕ → Bool
same_key [] [] = true
same_key [] (d ∷ ds) = false
same_key (c ∷ cs) [] = false
same_key (c ∷ cs) (d ∷ ds) = (c == d) && same_key cs ds

-- A request, as far as it is read: `idempotency_key` is the header, if it is not empty, and `merchant_id` what the
-- middleware before has found, without 0.
pub record Request : Type 0 where
  pub method : Method
  pub idempotency_key : Option (List ℕ)
  pub merchant_id : Option ℕ
  pub body : String

pub record Response : Type 0 where
  pub status : ℕ
  pub body : String

pub record KeyRow : Type 0 where
  pub id : ℕ
  pub merchant_id : ℕ
  pub key : List ℕ
  pub request_body_hash : String
  pub response_status : ℕ
  pub response_body : String
  pub expires_at : ℕ
  pub created_at : ℕ

pub record KeyTable : Type 0 where
  pub rows : List KeyRow
  pub next_id : ℕ

-- How a request is answered: by the handler, from the table, or by an error of the middleware.
pub data Answer : Type 0 where
  handled cached : Response → Answer
  key_required invalid_key key_conflict : Answer

-- The readings of the clock, and whether D1 fails to delete and to insert.
pub record Inputs : Type 0 where
  pub now : ℕ
  pub stored_at : ℕ
  pub created_at : ℕ
  pub delete_fails : Bool
  pub insert_fails : Bool

abbrev pub ttl_ms : ℕ
ttl_ms = 86_400_000

abbrev pub is_row_of : ℕ → List ℕ → KeyRow → Bool
is_row_of merchant key r = (r.merchant_id == merchant) && same_key r.key key

unfoldable pub find_row : ℕ → List ℕ → List KeyRow → Option KeyRow
find_row merchant key [] = none
find_row merchant key (r ∷ rs) =
    if is_row_of merchant key r then some r else find_row merchant key rs

-- `DELETE … WHERE id = ?`
abbrev pub delete_row : Bool → ℕ → KeyTable → KeyTable
delete_row true i t = t
delete_row false i t = record t { rows = keep (λ r. not (r.id == i)) t.rows }

-- `INSERT … ON CONFLICT(merchant_id, key) DO NOTHING`
unfoldable pub insert_row : ℕ → ℕ → ℕ → List ℕ → String → Response → KeyTable → KeyTable
insert_row at created merchant key hash r t = elim (find_row merchant key t.rows) [
  | some _ ↦ t
  | none ↦ record {
    rows =
        t.rows
        ++ (record {
          id = t.next_id;
          merchant_id = merchant;
          key = key;
          request_body_hash = hash;
          response_status = r.status;
          response_body = r.body;
          expires_at = at + ttl_ms;
          created_at = created;
        }
            ∷ []);
    next_id = t.next_id + 1;
  }
]

-- `response.status >= 200 && response.status < 400`
abbrev pub is_cacheable : Response → Bool
is_cacheable r = leb 200 r.status && ltb r.status 400

module _ {S : Type 0} (sha256 : String → String) (next : S → S × Response) where
  abbrev pub pass : KeyTable → S → KeyTable × S × Answer
  pass t s = let (s', r) = next s in (t, s', handled r)

  -- The request is handled, and a good response is stored.
  unfoldable pub process : Inputs → ℕ → List ℕ → String → KeyTable → S → KeyTable × S × Answer
  process i merchant key hash t s =
      let (s', r) = next s in
      (
        if is_cacheable r && not i.insert_fails
            then insert_row i.stored_at i.created_at merchant key hash r t
            else t,
        s',
        handled r,
      )

  unfoldable pub with_key : Inputs → ℕ → List ℕ → String → KeyTable → S → KeyTable × S × Answer
  with_key i merchant key hash t s = elim (find_row merchant key t.rows) [
    | none ↦ process i merchant key hash t s
    | some r ↦
        if ltb r.expires_at i.now
        then process i merchant key hash (delete_row i.delete_fails r.id t) s
        else if str_eq r.request_body_hash hash
        then (t, s, cached (record { status = r.response_status; body = r.response_body }))
        else (t, s, key_conflict)
  ]

  unfoldable pub idempotent : Bool → Inputs → Request → KeyTable → S → KeyTable × S × Answer
  idempotent required i q t s =
      if is_write q.method
      then elim q.idempotency_key [
        | none ↦ if required then (t, s, key_required) else pass t s
        | some key ↦
            if is_valid_key key
            then elim q.merchant_id [
              | none ↦ pass t s
              | some merchant ↦ with_key i merchant key (sha256 q.body) t s
            ]
            else (t, s, invalid_key)
      ]
      else pass t s
