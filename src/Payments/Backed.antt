-- ===== src/Payments/Backed.antt =====
-- Completed payments of src/services/payment.ts and the books of their merchants: the predicate, and
-- what keeps it.
use edgepay_cf.Prelude.{
  ℕ, ◌≡◌, ◌≢◌, inl, inr, refl, sym, ◌∙◌, String, ◌&&◌, List, [], ◌∷◌, map, Option, some, none,
  arith, All, Bool-cases, ◌==◌, if◌then◌else◌,
}
use edgepay_cf.Posting.{Platform}
use edgepay_cf.Posting.Entries.{payment_tx_id}
use edgepay_cf.Posting.Held.{Holds}
use edgepay_cf.Payments.{completed, Intent, Transaction, Shop, find_intent, set_processing}
use edgepay_cf.Payments.Callback.{set_failed, is_open}

-- The merchant of the first intent with the id.
abbrev pub merchant_of : ℕ → List Intent → Option ℕ
merchant_of k [] = none
merchant_of k (i ∷ is) = if i.id == k then some i.merchant_id else merchant_of k is

-- A completed transaction's payment is registered in the book of its intent's merchant.
abbrev pub IsBackedIn : Platform → List Intent → Transaction → Type 0
IsBackedIn p is t =
    t.status ≡ completed
    → (m : ℕ) × (merchant_of t.payment_intent_id is ≡ some m)
      × Holds p m (payment_tx_id m t.payment_intent_id)

-- `id` is the primary key.
abbrev pub AreKeyed : List Transaction → Type 0
AreKeyed [] = Unit
AreKeyed (t ∷ ts) = All (λ u. u.id ≢ t.id) ts × AreKeyed ts

pub record IsBacked (x : Shop) : Type 0 where
  pub keyed : AreKeyed x.transactions
  pub backed : All (IsBackedIn x.platform x.intents) x.transactions

pub merchant_of-find :
    (k : ℕ) (is : List Intent) (i : Intent)
    → find_intent k is ≡ some i
    → merchant_of k is ≡ some i.merchant_id
merchant_of-find k [] i h = ground (arith, h)
merchant_of-find k (j ∷ is) i h = elim (Bool-cases (j.id == k)) [
  | inl q ↦ ground (arith, q, h)
  | inr q ↦ rw q (merchant_of-find k is i (rw q at h))
]

-- A change of the intents that keeps who they are.
abbrev pub KeepsIntents : (Intent → Intent) → Type 0
KeepsIntents f = (i : Intent) → ((f i).id ≡ i.id) × ((f i).merchant_id ≡ i.merchant_id)

pub merchant_of-map :
    (f : Intent → Intent) (k : ℕ) (is : List Intent)
    → KeepsIntents f
    → merchant_of k (map f is) ≡ merchant_of k is
merchant_of-map f k [] h = refl
merchant_of-map f k (i ∷ is) h = rw ((h i).0, (h i).1, merchant_of-map f k is h) refl

-- A change of the transactions that keeps who they are.
abbrev pub KeepsTransactions : (Transaction → Transaction) → Type 0
KeepsTransactions f =
    (t : Transaction) → ((f t).id ≡ t.id) × ((f t).payment_intent_id ≡ t.payment_intent_id)

All-map_id :
    (f : Transaction → Transaction) (k : ℕ) (ts : List Transaction)
    → KeepsTransactions f
    → All (λ u. u.id ≢ k) ts
    → All (λ u. u.id ≢ k) (map f ts)
All-map_id f k [] h a = tt
All-map_id f k (t ∷ ts) h a = (λ e. a.0 (sym (h t).0 ∙ e), All-map_id f k ts h a.1)

pub AreKeyed-map :
    (f : Transaction → Transaction) (ts : List Transaction)
    → KeepsTransactions f
    → AreKeyed ts
    → AreKeyed (map f ts)
AreKeyed-map f [] h k = tt
AreKeyed-map f (t ∷ ts) h k = (rw (h t).0 (All-map_id f t.id ts h k.0), AreKeyed-map f ts h k.1)

-- One transaction after a change, on a platform that holds what it held.
abbrev pub HoldsMore : Platform → Platform → Type 0
HoldsMore p p' = (m : ℕ) (t : String) → Holds p m t → Holds p' m t

pub IsBackedIn-kept :
    (p p' : Platform) (is is' : List Intent) (t t' : Transaction)
    → HoldsMore p p'
    → ((k : ℕ) → merchant_of k is' ≡ merchant_of k is)
    → t'.payment_intent_id ≡ t.payment_intent_id
    → (t'.status ≡ completed → t.status ≡ completed)
    → IsBackedIn p is t
    → IsBackedIn p' is' t'
IsBackedIn-kept p p' is is' t t' h i same s b c =
    let (m, q, r) = b (s c) in (m, rw same (i t.payment_intent_id ∙ q), rw same (h m _ r))

-- A change that completes no transaction, as `initiatePayment` and the refusals make.
abbrev pub Uncompleting : (Transaction → Transaction) → Type 0
Uncompleting f =
    (t : Transaction)
    → ((f t).id ≡ t.id)
      × ((f t).payment_intent_id ≡ t.payment_intent_id)
      × ((f t).status ≡ completed → t.status ≡ completed)

pub All-Uncompleting :
    (p p' : Platform) (is is' : List Intent) (f : Transaction → Transaction) (ts : List Transaction)
    → HoldsMore p p'
    → ((k : ℕ) → merchant_of k is' ≡ merchant_of k is)
    → Uncompleting f
    → All (IsBackedIn p is) ts
    → All (IsBackedIn p' is') (map f ts)
All-Uncompleting p p' is is' f [] h i u b = tt
All-Uncompleting p p' is is' f (t ∷ ts) h i u b = (
  IsBackedIn-kept p p' is is' t (f t) h i (u t).1 (u t).2 b.0,
  All-Uncompleting p p' is is' f ts h i u b.1,
)

pub set_failed-Uncompleting : (k : ℕ) → Uncompleting (set_failed k)
set_failed-Uncompleting k t = elim (Bool-cases ((t.id == k) && is_open t.status)) [
  | inl q ↦ rw q (refl, refl, ground arith)
  | inr q ↦ rw q (refl, refl, λ c. c)
]

pub set_processing-Uncompleting : (k : ℕ) → Uncompleting (set_processing k)
set_processing-Uncompleting k t = elim (Bool-cases (t.payment_intent_id == k)) [
  | inl q ↦ rw q (refl, refl, ground arith)
  | inr q ↦ rw q (refl, refl, λ c. c)
]
