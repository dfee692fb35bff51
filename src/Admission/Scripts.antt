-- ===== src/Admission/Scripts.antt =====
-- The Lua scripts and the methods of class RedisQueueAdmission
-- (apps/api/src/boardtrace_api/queue_admission.py). Each script is one atomic step on the keys of
-- the admission state; jobs and users are identified by numbers, times are epoch seconds. A Redis
-- that cannot be reached raises before the script and leaves the state as it is.
use boardtrace.Prelude.{
  ltb, leb, ◌==◌, if◌then◌else◌, is_some, is_none, length, ℕ, zero, suc, ◌+◌, Bool, true, false,
  not, Option, none, some, List, [], ◌∷◌,
}
use boardtrace.Admission.Redis.{
  mem, sadd, srem, Hash, hget, hset, hdel, zadd, zrank, members, key_of,
}

pub data AdmissionOutcome : Type 0 where
  active waiting consent_required user_busy queue_full terminal : AdmissionOutcome

pub record QueueAdmission : Type 0 where
  pub outcome : AdmissionOutcome
  pub position : Option ℕ
  pub deadline_at : Option ℕ

-- The six keys of the namespace. `extended` holds 0 or 1.
pub record Keys : Type 0 where
  pub running : List ℕ
  pub queue : Hash
  pub users : Hash
  pub deadlines : Hash
  pub extended : Hash
  pub sequence : ℕ

abbrev pub max_active : ℕ
max_active = 2

abbrev pub max_waiting : ℕ
max_waiting = 3

abbrev pub wait_seconds : ℕ
wait_seconds = 180

-- `int(text) or None`
abbrev pub or_none : ℕ → Option ℕ
or_none zero = none
or_none (suc n) = some (suc n)

-- `tostring(ZRANK + 1)`: the rank of a member that is in the set.
abbrev pub place : Option ℕ → ℕ
place none = 0
place (some r) = r + 1

abbrev decision : AdmissionOutcome → QueueAdmission
decision o = record { outcome = o; position = none; deadline_at = none }

unfoldable pub activate : ℕ → ℕ → Keys → Keys
activate job user s = record s { running = sadd job s.running; users = hset user job s.users }

unfoldable pub enqueue : ℕ → ℕ → ℕ → Keys → Keys
enqueue job user now s = record s {
  queue = zadd job (s.sequence + 1) s.queue;
  users = hset user job s.users;
  deadlines = hset job (now + wait_seconds) s.deadlines;
  extended = hset job 0 s.extended;
  sequence = s.sequence + 1;
}

-- `_ADMIT`
unfoldable pub admit : ℕ → ℕ → Bool → ℕ → Keys → QueueAdmission × Keys
admit job user consent now s =
    if is_some (hget user s.users)
    then (decision user_busy, s)
    else if ltb (length s.running) max_active
    then (decision active, activate job user s)
    else if not consent
    then (decision consent_required, s)
    else if leb max_waiting (length s.queue)
    then (decision queue_full, s)
    else let s' = enqueue job user now s in
      (
        record {
          outcome = waiting;
          position = or_none (place (zrank job s'.queue));
          deadline_at = or_none (now + wait_seconds);
        },
        s',
      )

-- `HGET … or '0'`
abbrev pub or_zero : Option ℕ → ℕ
or_zero none = 0
or_zero (some n) = n

-- `_STATE`
unfoldable pub state : ℕ → Keys → Option QueueAdmission
state job s = if mem job s.running then some (decision active) else elim (zrank job s.queue) [
  | none ↦ none
  | some r ↦ some (record {
    outcome = waiting;
    position = or_none (r + 1);
    deadline_at = or_none (or_zero (hget job s.deadlines));
  })
]

abbrev pub is_value : ℕ → Option ℕ → Bool
is_value v none = false
is_value v (some w) = w == v

-- `_CANCEL`
unfoldable pub cancel_waiting : ℕ → ℕ → Keys → Bool × Keys
cancel_waiting job user s =
    if not (is_value job (hget user s.users))
    then (false, s)
    else if is_none (hget job s.queue)
    then (false, s)
    else (
      true,
      record s {
        queue = hdel job s.queue;
        users = hdel user s.users;
        deadlines = hdel job s.deadlines;
        extended = hdel job s.extended;
      },
    )

-- `_EXTEND`
unfoldable pub extend_wait : ℕ → ℕ → Keys → Bool × Keys
extend_wait job now s =
    if is_none (hget job s.queue)
    then (false, s)
    else if not (is_value 0 (hget job s.extended))
    then (false, s)
    else elim (hget job s.deadlines) [
      | none ↦ (false, s)
      | some deadline ↦ if ltb deadline now then (false, s) else (
        true,
        record s {
          deadlines = hset job (deadline + wait_seconds) s.deadlines;
          extended = hset job 1 s.extended;
        },
      )
    ]

unfoldable pub drop_user : ℕ → Hash → Hash
drop_user job users = elim (key_of job users) [ none ↦ users | some u ↦ hdel u users ]

unfoldable pub is_overdue : Option ℕ → ℕ → Bool
is_overdue none now = false
is_overdue (some deadline) now = leb deadline now

unfoldable pub expire_one : ℕ → Keys → Keys
expire_one job s = record s {
  queue = hdel job s.queue;
  users = drop_user job s.users;
  deadlines = hdel job s.deadlines;
  extended = hdel job s.extended;
}

-- The loop of `_SWEEP` over the jobs that were waiting when it began.
unfoldable pub sweep : List ℕ → ℕ → Keys → List ℕ × Keys
sweep [] now s = ([], s)
sweep (job ∷ jobs) now s =
    let due = is_overdue (hget job s.deadlines) now in
    let (expired, s') = sweep jobs now (if due then expire_one job s else s) in
    (if due then job ∷ expired else expired, s')

-- `_SWEEP`
unfoldable pub expire_waiting : ℕ → Keys → List ℕ × Keys
expire_waiting now s = sweep (members s.queue) now s

unfoldable pub promote : ℕ → Keys → Keys
promote job s = record s {
  queue = hdel job s.queue;
  running = sadd job s.running;
  deadlines = hdel job s.deadlines;
  extended = hdel job s.extended;
}

unfoldable pub release : ℕ → Keys → Option ℕ × Keys
release user s =
    let s' : Keys = record s { users = hdel user s.users } in
    elim (members s.queue) [ [] ↦ (none, s') | job ∷ _ ↦ (some job, promote job s') ]

-- `_COMPLETE`
unfoldable pub complete_active : ℕ → ℕ → Keys → Option ℕ × Keys
complete_active job user s =
    if not (mem job s.running)
    then (none, s)
    else let s' : Keys = record s { running = srem job s.running } in
      if not (is_value job (hget user s.users)) then (none, s') else release user s'

-- `clear`
unfoldable pub empty : Keys
empty = record { running = []; queue = []; users = []; deadlines = []; extended = []; sequence = 0 }
