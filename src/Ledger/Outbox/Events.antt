-- ===== src/Ledger/Outbox/Events.antt =====
-- How the updates of `outbox_events` in src/do/ledger-do.ts act on its rows.
use edgepay_cf.Prelude.{
  All-take, All-keep, ℕ, ◌+◌, ◌≡◌, refl, ap, ◌∙◌, Bool, false, List, [], ◌∷◌, map, Option, none,
  some, keep, All, All-map, arith, ◌==◌, ◌||◌, ◌&&◌, if◌then◌else◌,
}
use edgepay_cf.Ledger.State.{synced, OutboxEvent, RetryError}
use edgepay_cf.Ledger.Outbox.{
  outbox_batch_postings, is_pending, is_due, select_pending, retry_count_of, set_retry,
  mark_outbox_retry, set_synced, mark_synced,
}

abbrev pub find_event : ℕ → List OutboxEvent → Option OutboxEvent
find_event i [] = none
find_event i (e ∷ es) = if e.id == i then some e else find_event i es

-- `id` is a primary key: no two rows share one.
abbrev pub DistinctIds : List OutboxEvent → Type 0
DistinctIds [] = Unit
DistinctIds (e ∷ es) = (find_event e.id es ≡ none) × DistinctIds es

find_event-map :
    (g : OutboxEvent → OutboxEvent) (i : ℕ) (es : List OutboxEvent)
    → ((e : OutboxEvent) → (g e).id ≡ e.id)
    → find_event i es ≡ none
    → find_event i (map g es) ≡ none
find_event-map g i [] same h = refl
find_event-map g i (e ∷ es) same h = ground (arith, same e, find_event-map g i es same)

DistinctIds-map :
    (g : OutboxEvent → OutboxEvent) (es : List OutboxEvent)
    → ((e : OutboxEvent) → (g e).id ≡ e.id)
    → DistinctIds es
    → DistinctIds (map g es)
DistinctIds-map g [] same h = tt
DistinctIds-map g (e ∷ es) same h =
    (rw (same e) (find_event-map g e.id es same h.0), DistinctIds-map g es same h.1)

pub DistinctIds-mark_outbox_retry :
    (now : ℕ) (error : RetryError) (is : List ℕ) (es : List OutboxEvent)
    → DistinctIds es
    → DistinctIds (mark_outbox_retry now error is es)
unfolding mark_outbox_retry
DistinctIds-mark_outbox_retry now error [] es h = h
DistinctIds-mark_outbox_retry now error (i ∷ is) es h =
    DistinctIds-mark_outbox_retry now error is _
      (DistinctIds-map (set_retry now i error (retry_count_of i es + 1)) es (λ e. ground arith) h)

pub DistinctIds-mark_synced :
    (at : ℕ) (is : List ℕ) (es : List OutboxEvent)
    → DistinctIds es
    → DistinctIds (mark_synced at is es)
unfolding mark_synced
DistinctIds-mark_synced at [] es h = h
DistinctIds-mark_synced at (i ∷ is) es h =
    DistinctIds-mark_synced at is _ (DistinctIds-map (set_synced at i) es (λ e. ground arith) h)

-- Each row is what its own id finds.
pub find_event_self :
    (es : List OutboxEvent) → DistinctIds es → All (λ e. find_event e.id es ≡ some e) es
find_event_self [] h = tt
find_event_self (e ∷ es) h = (ground arith, later es (find_event_self es h.1))
  where
    later :
        (xs : List OutboxEvent)
        → All (λ x. find_event x.id es ≡ some x) xs
        → All (λ x. find_event x.id (e ∷ es) ≡ some x) xs
    later [] k = tt
    later (x ∷ xs) k = (ground arith, later xs k.1)

abbrev pub is_in : ℕ → List ℕ → Bool
is_in i [] = false
is_in i (j ∷ js) = i == j || is_in i js

-- The effect of all updates on one row.
pub synced_row : ℕ → List ℕ → OutboxEvent → OutboxEvent
synced_row at [] e = e
synced_row at (i ∷ is) e = synced_row at is (set_synced at i e)

map_self : (es : List OutboxEvent) → es ≡ map (λ e. e) es
map_self [] = refl
map_self (e ∷ es) = ap (λ r. e ∷ r) (map_self es)

map-map :
    (f g : OutboxEvent → OutboxEvent) (es : List OutboxEvent)
    → map f (map g es) ≡ map (λ e. f (g e)) es
map-map f g [] = refl
map-map f g (e ∷ es) = ap (λ r. f (g e) ∷ r) (map-map f g es)

pub mark_synced-eq-map :
    (at : ℕ) (is : List ℕ) (es : List OutboxEvent)
    → mark_synced at is es ≡ map (synced_row at is) es
unfolding mark_synced synced_row
mark_synced-eq-map at [] es = map_self es
mark_synced-eq-map at (i ∷ is) es =
    mark_synced-eq-map at is (map (set_synced at i) es)
    ∙ map-map (synced_row at is) (set_synced at i) es

-- A row keeps its id and payload; it is synced if and only if it was, or its id is listed.
pub synced_row_fields :
    (at : ℕ) (is : List ℕ) (e : OutboxEvent)
    → ((synced_row at is e).payload ≡ e.payload)
      × ((synced_row at is e).status ≡ (if is_in e.id is then synced else e.status))
unfolding synced_row
synced_row_fields at [] e = (refl, refl)
synced_row_fields at (i ∷ is) e = ground (arith, synced_row_fields at is (set_synced at i e))

-- A predicate that a retry does not touch.
pub All-mark_outbox_retry :
    (P : OutboxEvent → Type 0) (now : ℕ) (error : RetryError) (is : List ℕ) (es : List OutboxEvent)
    → ((i r : ℕ) (e : OutboxEvent) → P e → P (set_retry now i error r e))
    → All P es
    → All P (mark_outbox_retry now error is es)
unfolding mark_outbox_retry
All-mark_outbox_retry P now error [] es keeps h = h
All-mark_outbox_retry P now error (i ∷ is) es keeps h =
    All-mark_outbox_retry P now error is _ keeps
      (All-map P P (set_retry now i error (retry_count_of i es + 1)) es (keeps i _) h)

-- What is selected and composed comes from the table.
pub All-select_pending :
    (P : OutboxEvent → Type 0) (force : Bool) (now : ℕ) (es : List OutboxEvent)
    → All P es
    → All P (select_pending force now es)
unfolding select_pending
All-select_pending P force now es h =
    let test = λ (x : OutboxEvent). is_pending x.status && (force || is_due now x.next_retry_at) in
    All-take P outbox_batch_postings (keep test es) (All-keep P test es h)
