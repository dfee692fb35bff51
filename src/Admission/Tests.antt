-- ===== src/Admission/Tests.antt =====
-- The queue at work: user 10 owns job 1, user 20 job 2, and so on.
use boardtrace.Prelude.{
  if◌then◌else◌, ℕ, ◌+◌, ◌*◌, ◌≤◌, ◌≡◌, refl, inl, true, false, none, some, List, [], ◌∷◌,
}
use boardtrace.Admission.Redis.{mem, sadd, srem, hget, hset, hdel, insert_scored, zadd, zrank}
use boardtrace.Admission.Scripts.{
  Keys, wait_seconds, activate, enqueue, admit, extend_wait, is_overdue, expire_waiting, promote,
  release, complete_active, empty,
}
use boardtrace.Admission.Invariant.{IsConsistent}
use boardtrace.Admission.Calls.{
  Call, admitting, completing, call, calls, calls-IsConsistent, one_job_per_user,
}
use boardtrace.Admission.Line.{view}
use boardtrace.Admission.Refinement.{events, happen_all, calls_refined}
use boardtrace.Admission.Deadlines.{extend_wait_once, expire_waiting_exact}

abbrev owner : ℕ → ℕ
owner job = job * 10

-- Three users come, the third waits; then the first job ends.
abbrev busy_day : List Call
busy_day = admitting 1 false 100 ∷ admitting 2 false 100 ∷ admitting 3 true 100 ∷ completing 1 ∷ []

abbrev three_in : List Call
three_in = admitting 1 false 100 ∷ admitting 2 false 100 ∷ admitting 3 true 100 ∷ []

calls_refined_example :
    view (calls owner busy_day empty) ≡ happen_all owner (events owner busy_day empty) (view empty)
calls_refined_example = calls_refined owner busy_day

calls-IsConsistent_example : IsConsistent owner (calls owner busy_day empty)
calls-IsConsistent_example = calls-IsConsistent owner busy_day

abbrev third_job : ℕ
third_job = 3

third_promoted : mem third_job (calls owner busy_day empty).running ≡ true
unfolding calls call admit activate enqueue complete_active release promote empty mem sadd srem hget
    hset hdel zadd insert_scored zrank extend_wait
third_promoted = refl

one_job_per_user_example :
    (third_job ≡ third_job)
    × ((mem third_job (calls owner busy_day empty).running ≡ true)
        → hget third_job (calls owner busy_day empty).queue ≡ none)
one_job_per_user_example =
    one_job_per_user owner busy_day third_job third_job (inl third_promoted) (inl third_promoted)
      refl

abbrev two_in : List Call
two_in = admitting 1 false 100 ∷ admitting 2 false 100 ∷ []

abbrev full : Keys
full = calls owner three_in empty

extension_granted : extend_wait third_job 150 full ≡ (true, (extend_wait third_job 150 full).1)
unfolding calls call admit activate enqueue complete_active release promote empty mem sadd srem hget
    hset hdel zadd insert_scored zrank extend_wait
extension_granted = refl

extend_wait_once_example :
    (extend_wait third_job 160 (extend_wait third_job 150 full).1
      ≡ (false, (extend_wait third_job 150 full).1))
    × (d : ℕ) × (hget third_job full.deadlines ≡ some d)
    × (150 ≤ d)
    × (hget third_job (extend_wait third_job 150 full).1.deadlines ≡ some (d + wait_seconds))
extend_wait_once_example =
    extend_wait_once third_job 150 160 full (extend_wait third_job 150 full).1 extension_granted

expire_waiting_exact_example :
    let (expired, s') = expire_waiting 500 full in
    (hget third_job s'.queue ≡ (
      if is_overdue (hget third_job full.deadlines) 500 then none else hget third_job full.queue))
    × (mem third_job expired ≡ is_overdue (hget third_job full.deadlines) 500)
expire_waiting_exact_example =
    expire_waiting_exact owner 500 third_job full (calls-IsConsistent owner three_in)
