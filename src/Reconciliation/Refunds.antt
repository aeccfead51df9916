-- ===== src/Reconciliation/Refunds.antt =====
-- The sweep of stuck refunds and the triggers of workflows, src/services/reconciliation.ts. An id of an
-- instance is the list of its UTF-16 units. What the runtime answers to `create` is an argument.
pub mod Bounded
use edgepay_cf.Prelude.{
  ℕ, suc, ◌+◌, ◌-◌, ◌*◌, String, Bool, true, false, ◌&&◌, ◌||◌, List, [], ◌∷◌, ◌++◌, map, take,
  keep, Option, none, some, ltb, leb, length, ◌==◌, if◌then◌else◌,
}
use edgepay_cf.Prelude.Texts.{codes, decimal}
use edgepay_cf.Refunds.{RefundStatus}

abbrev pub refund_stuck_ms : ℕ
refund_stuck_ms = 24 * 60 * 60 * 1000

abbrev pub max_refund_workflow_attempts : ℕ
max_refund_workflow_attempts = 3

abbrev pub Units : Type 0
Units = List ℕ

abbrev is_between : ℕ → ℕ → ℕ → Bool
is_between low high c = leb low c && leb c high

abbrev is_decimal_unit : ℕ → Bool
is_decimal_unit = is_between 48 57

-- `[a-zA-Z0-9_-]`
abbrev is_id_unit : ℕ → Bool
is_id_unit c =
    is_between 97 122 c || is_between 65 90 c || is_decimal_unit c || (c == 95) || (c == 45)

-- `replace(/[^a-zA-Z0-9_-]/g, '-')`
unfoldable pub sanitize : Units → Units
sanitize = map (λ c. if is_id_unit c then c else 45)

-- `buildRefundInstanceId`; an empty suffix is falsy.
unfoldable pub build_refund_instance_id : ℕ → Option Units → Units
unfolding sanitize
build_refund_instance_id i none = codes "refund-" ++ codes (decimal i)
build_refund_instance_id i (some []) = codes "refund-" ++ codes (decimal i)
build_refund_instance_id i (some (c ∷ cs)) =
    codes "refund-" ++ codes (decimal i) ++ codes "-" ++ take 32 (sanitize (c ∷ cs))

-- `/^\d{4}-\d{2}-\d{2}$/`
abbrev is_date : Units → Bool
is_date (a ∷ b ∷ c ∷ d ∷ m ∷ e ∷ f ∷ n ∷ g ∷ h ∷ []) =
    is_decimal_unit a
    && is_decimal_unit b
    && is_decimal_unit c
    && is_decimal_unit d
    && (m == 45)
    && is_decimal_unit e
    && is_decimal_unit f
    && (n == 45)
    && is_decimal_unit g
    && is_decimal_unit h
is_date _ = false

unfoldable pub build_sweep_instance_id : Units → Units
build_sweep_instance_id date =
    let kept = take 10 (keep (λ c. is_decimal_unit c || (c == 45)) date) in
    codes "sweep-" ++ (if is_date date then date else kept)

-- What `create` throws: its numeric fields, and its message and name in lower case.
pub record WorkflowError : Type 0 where
  pub code : Option ℕ
  pub status : Option ℕ
  pub cause_code : Option ℕ
  pub message : Units
  pub name : Units

abbrev starts_with : Units → Units → Bool
starts_with [] s = true
starts_with (p ∷ ps) [] = false
starts_with (p ∷ ps) (c ∷ cs) = (c == p) && starts_with ps cs

unfoldable pub units_include : Units → Units → Bool
units_include t [] = starts_with t []
units_include t (c ∷ cs) = starts_with t (c ∷ cs) || units_include t cs

abbrev is_conflict : Option ℕ → Bool
is_conflict none = false
is_conflict (some n) = n == 409

-- `none` for a value that is falsy.
unfoldable pub is_workflow_duplicate_error : Option WorkflowError → Bool
unfolding units_include
is_workflow_duplicate_error none = false
is_workflow_duplicate_error (some e) =
    is_conflict e.code
    || is_conflict e.status
    || is_conflict e.cause_code
    || units_include (codes "already exists") e.message
    || (units_include (codes "duplicate") e.message && units_include (codes "workflow") e.message)
    || units_include (codes "duplicate") e.name
    || units_include (codes "conflicterror") e.name
    || units_include (codes "alreadyexists") e.name

pub data CreateReply : Type 0 where
  creates : CreateReply
  refuses : Option WorkflowError → CreateReply

pub record TriggerResult : Type 0 where
  pub instance_id : Units
  pub created : Bool

abbrev trigger : CreateReply → Units → Option TriggerResult
trigger creates i = some (record { instance_id = i; created = true })
trigger (refuses e) i =
    if is_workflow_duplicate_error e
    then some (record { instance_id = i; created = false })
    else none

-- `none` where it throws.
unfoldable pub trigger_refund_reconciliation : CreateReply → ℕ → Option Units → Option TriggerResult
unfolding is_workflow_duplicate_error build_refund_instance_id
trigger_refund_reconciliation reply i suffix = trigger reply (build_refund_instance_id i suffix)

-- `date` is `dateStr`, or the day that the clock reads.
unfoldable pub trigger_daily_sweep : CreateReply → Units → Option TriggerResult
unfolding is_workflow_duplicate_error build_sweep_instance_id
trigger_daily_sweep reply date = trigger reply (build_sweep_instance_id date)

-- The columns of `op_refunds` that the sweep reads and writes.
pub record SweptRefund : Type 0 where
  pub id : ℕ
  pub refund_id : String
  pub status : RefundStatus
  pub created_at : ℕ
  pub workflow_attempts : ℕ
  pub last_workflow_at : Option ℕ

-- The table, and the calls of `create` that returned, each with the refund that it is for.
pub record SweepState : Type 0 where
  pub refunds : List SweptRefund
  pub triggered : List (ℕ × TriggerResult)

pub record RefundSweepResult : Type 0 where
  pub retriggered : ℕ
  pub stuck : ℕ

abbrev is_refund_pending : RefundStatus → Bool
is_refund_pending RefundStatus.pending = true
is_refund_pending _ = false

abbrev pub is_old : ℕ → SweptRefund → Bool
is_old now r = is_refund_pending r.status && ltb r.created_at (now - refund_stuck_ms)

abbrev pub is_refund_stuck : ℕ → SweptRefund → Bool
is_refund_stuck now r = is_old now r && ltb r.workflow_attempts max_refund_workflow_attempts

abbrev pub is_terminal : ℕ → SweptRefund → Bool
is_terminal now r = is_old now r && leb max_refund_workflow_attempts r.workflow_attempts

-- `UPDATE op_refunds SET workflow_attempts = workflow_attempts + 1, last_workflow_at = ? WHERE id = ?`
abbrev pub bump_workflow : ℕ → ℕ → SweptRefund → SweptRefund
bump_workflow at i r =
    if r.id == i
    then record r { workflow_attempts = r.workflow_attempts + 1; last_workflow_at = some at }
    else r

abbrev pub sweep_suffix : SweptRefund → Units
sweep_suffix r = codes "sweep-" ++ codes (decimal (r.workflow_attempts + 1))

-- The loop over the stuck refunds. The k-th call of `create` is answered by `reply k`.
unfoldable pub sweep_rows :
    (ℕ → CreateReply) → (at k : ℕ) → List SweptRefund → SweepState → SweepState × Bool
sweep_rows reply at k [] s = (s, true)
sweep_rows reply at k (r ∷ rs) s =
    elim (trigger_refund_reconciliation (reply k) r.id (some (sweep_suffix r))) [
      | none ↦ (s, false)
      | some t ↦ sweep_rows reply at (suc k) rs (record {
        refunds = map (bump_workflow at r.id) s.refunds;
        triggered = (r.id, t) ∷ s.triggered;
      })
    ]

-- The result is `none` where the sweep throws; its last part is the refunds that it pages.
unfoldable pub sweep_stuck_refunds :
    (ℕ → CreateReply)
    → (now at : ℕ) → SweepState
    → SweepState × Option RefundSweepResult × List String
sweep_stuck_refunds reply now at s =
    let stuck = keep (is_refund_stuck now) s.refunds in
    let (s', returns) = sweep_rows reply at 0 stuck s in
    let terminal = keep (is_terminal now) s'.refunds in
    if returns
    then (
      s',
      some (record { retriggered = length stuck; stuck = length terminal }),
      map (λ r. r.refund_id) terminal,
    )
    else (s', none, [])
