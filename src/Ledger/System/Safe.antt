-- ===== src/Ledger/System/Safe.antt =====
-- What holds of the ledger object of src/do/ledger-do.ts and of its mirror at every moment.
use edgepay_cf.Prelude.{
  ℕ, ◌+◌, ◌≡◌, ◌<◌, refl, List, [], ◌∷◌, ◌++◌, none, All, All-imp, All-append, arith,
}
use edgepay_cf.Ledger.Types.{PostingPayload}
use edgepay_cf.Ledger.State.{OutboxEvent, LedgerDo, LedgerEnv, fresh}
use edgepay_cf.Ledger.Book.{total_debit, total_credit}
use edgepay_cf.Ledger.Mirror.{Mirror}
use edgepay_cf.Ledger.Mirror.Replay.{IsMirrored-Extends, Extends}
use edgepay_cf.Ledger.Post.Keeps.{IsSound, post_transaction-IsSound}
use edgepay_cf.Ledger.Outbox.Events.{find_event, DistinctIds}
use edgepay_cf.Ledger.Outbox.Delivery.{Delivered, IsDelivered, drain_outbox-IsDelivered}
use edgepay_cf.Ledger.Alarm.Sweep.{alarm-IsDelivered}
use edgepay_cf.Ledger.System.{System, initial, Step, post, drain, ring, Reach, here, next}
use edgepay_cf.Ledger.System.Queue.{QueueEnding, same, added, post_transaction-QueueEnding}
use edgepay_cf.Ledger.System.Drained.{Numbered, Settled, drain_outbox-Settled, alarm-Settled}

-- The book is sound; of every synced event the mirror has a header and a row at the place of each entry;
-- and the next event's id is new.
pub record IsSafe (x : System) : Type 0 where
  pub sound : IsSound x.ledger
  pub delivered : IsDelivered x.ledger.outbox x.mirror
  pub numbered : Numbered x.ledger.outbox_seq x.ledger.outbox

find_event_new : (n : ℕ) (es : List OutboxEvent) → Numbered n es → find_event n es ≡ none
find_event_new n [] h = refl
find_event_new n (e ∷ es) h = ground (arith, find_event_new n es h.1)

find_event-append :
    (i : ℕ) (e : OutboxEvent) (es : List OutboxEvent)
    → find_event i es ≡ none
    → i < e.id
    → find_event i (es ++ (e ∷ [])) ≡ none
find_event-append i e [] h k = ground arith
find_event-append i e (x ∷ xs) h k = ground (arith, find_event-append i e xs)

DistinctIds-append :
    (n : ℕ) (e : OutboxEvent) (es : List OutboxEvent)
    → e.id ≡ n
    → Numbered n es
    → DistinctIds es
    → DistinctIds (es ++ (e ∷ []))
DistinctIds-append n e [] q h d = (refl, tt)
DistinctIds-append n e (x ∷ xs) q h d =
    (find_event-append x.id e xs d.0 (omega (arith, h.0, q)), DistinctIds-append n e xs q h.1 d.1)

Delivered-Extends :
    (m m' : Mirror) (es : List OutboxEvent)
    → Extends m m'
    → All (Delivered m) es
    → All (Delivered m') es
Delivered-Extends m m' es x =
    All-imp (Delivered m) (Delivered m') es (λ e d q. IsMirrored-Extends e.payload m m' x (d q))

module _ (p : PostingPayload) (s s' : LedgerDo) (m m' : Mirror) where
  QueueEnding-IsDelivered :
      QueueEnding p s s' m m'
      → Numbered s.outbox_seq s.outbox
      → IsDelivered s.outbox m
      → IsDelivered s'.outbox m'
  QueueEnding-IsDelivered (same o n x) h d = rw (o, x) d
  QueueEnding-IsDelivered (added e i q k o n x) h d = rw o (record {
    ids = DistinctIds-append s.outbox_seq e s.outbox i h d.ids;
    delivered =
        All-append (Delivered m') s.outbox (e ∷ []) (Delivered-Extends m m' s.outbox x d.delivered)
          (k, tt);
  })

  QueueEnding-Numbered :
      QueueEnding p s s' m m' → Numbered s.outbox_seq s.outbox → Numbered s'.outbox_seq s'.outbox
  QueueEnding-Numbered (same o n x) h = rw (o, n) h
  QueueEnding-Numbered (added e i q k o n x) h =
      rw (o, n)
        (All-append (λ y. y.id < s.outbox_seq + 1) s.outbox (e ∷ [])
          (All-imp (λ y. y.id < s.outbox_seq) (λ y. y.id < s.outbox_seq + 1) s.outbox
            (λ y l. omega arith) h)
          (omega (arith, i), tt))

Settled-IsSound : (s s' : LedgerDo) → Settled s s' → IsSound s → IsSound s'
Settled-IsSound s s' k h = rw (k.accounts, k.journal) h

Settled-Numbered :
    (s s' : LedgerDo)
    → Settled s s'
    → Numbered s.outbox_seq s.outbox
    → Numbered s'.outbox_seq s'.outbox
Settled-Numbered s s' k h = rw k.seq (k.numbered s.outbox_seq h)

Step-IsSafe : (env : LedgerEnv) {x y : System} → Step env x y → IsSafe x → IsSafe y
Step-IsSafe env (post reply now later p x) h =
    let s = x.ledger in
    let m = x.mirror in
    let e = post_transaction-QueueEnding env reply now later p s m in
    record {
      sound = post_transaction-IsSound env reply now later p s m h.sound;
      delivered = QueueEnding-IsDelivered p s _ m _ e h.numbered h.delivered;
      numbered = QueueEnding-Numbered p s _ m _ e h.numbered;
    }
Step-IsSafe env (drain force accepts now retry_at at x) h =
    let k = drain_outbox-Settled env force accepts now retry_at at x.ledger x.mirror in
    record {
      sound = Settled-IsSound x.ledger _ k h.sound;
      delivered =
          drain_outbox-IsDelivered env force accepts now retry_at at x.ledger x.mirror h.delivered;
      numbered = Settled-Numbered x.ledger _ k h.numbered;
    }
Step-IsSafe env (ring i x) h =
    let k = alarm-Settled env i x.ledger x.mirror x.snapshots in
    record {
      sound = Settled-IsSound x.ledger _ k h.sound;
      delivered = alarm-IsDelivered env i x.ledger x.mirror x.snapshots h.delivered;
      numbered = Settled-Numbered x.ledger _ k h.numbered;
    }

initial-IsSafe : (at : ℕ) → IsSafe (initial at)
unfolding fresh total_debit total_credit
initial-IsSafe at = record {
  sound = record { distinct = tt; derived = tt; nonneg = tt; known = tt; balanced = refl };
  delivered = record { ids = tt; delivered = tt };
  numbered = tt;
}

-- Whatever calls a new ledger object has had, in any order, with any times and any replies of D1:
-- its book is sound; for every synced event the mirror has a header of the posting's id and a row at the
-- place of each of its entries; no two events share an id, and the next id is above all of them.
pub Reach-IsSafe : (env : LedgerEnv) (at : ℕ) (x : System) → Reach env (initial at) x → IsSafe x
Reach-IsSafe env at x here = initial-IsSafe at
Reach-IsSafe env at x (next {y = y} r st) = Step-IsSafe env st (Reach-IsSafe env at y r)
