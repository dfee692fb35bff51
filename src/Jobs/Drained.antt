-- ===== src/Jobs/Drained.antt =====
-- The outbox is drained while the broker answers.
use boardtrace.Prelude.{
  ◌==◌, Bool-cases, Option-cases, is_some, length, take, filter, All, ok, is_ok, Result-cases,
  All-filter, Text, ℕ, ◌+◌, ◌-◌, min, ◌≡◌, refl, sym, ap, ◌∙◌, inl, inr, true, false, List, [], ◌∷◌,
  arith,
}
use boardtrace.Jobs.Status.{allowed_transitions, validate_transition}
use boardtrace.Jobs.Row.{AnalysisJob, AnalysisJobOutbox}
use boardtrace.Jobs.Operations.{mark_published}
use boardtrace.Jobs.Table.{
  Queue, get_by_id, is_pending_event, sort_by_created_at, list_publishable_outbox, put_event,
}
use boardtrace.Jobs.Publisher.{
  Broker, published_event, put_answer, queue_job_of, mark_outbox_published, publish_event,
  publish_all, publish_due,
}
use boardtrace.Jobs.Events.{
  Apart, DistinctEvents, RowOf, is_due, due_count, pending_count, count-put_event,
  due_count-put_event, rows_kept, All-take, All-sort, sort-DistinctEvents, filter-DistinctEvents,
  take-DistinctEvents, rows_of_all, all_pass, length-sort, length-filter-count, length-take-min,
}

mark_published-is_ok :
    (message_id : Text) (now : ℕ) (job : AnalysisJob)
    → is_ok (mark_published message_id now job) ≡ true
unfolding mark_published validate_transition allowed_transitions
mark_published-is_ok message_id now job = ground arith

put_event-Apart :
    (k : ℕ) (y : AnalysisJobOutbox) (es : List AnalysisJobOutbox)
    → Apart k es
    → Apart k (put_event y es)
unfolding put_event
put_event-Apart k y [] a = tt
put_event-Apart k y (x ∷ es) (a, apart) = elim (Bool-cases (x.id == y.id)) [
  | inl hit ↦ let same : (y.id == k) ≡ false = ground arith in rw hit (same, apart)
  | inr miss ↦ rw miss (a, put_event-Apart k y es apart)
]

-- The identifiers stay distinct.
put_event-DistinctEvents :
    (y : AnalysisJobOutbox) (es : List AnalysisJobOutbox)
    → DistinctEvents es
    → DistinctEvents (put_event y es)
unfolding put_event
put_event-DistinctEvents y [] d = tt
put_event-DistinctEvents y (x ∷ es) (a, d) = elim (Bool-cases (x.id == y.id)) [
  | inl hit ↦ let same : x.id ≡ y.id = ground arith in rw hit (rw (sym same) a, d)
  | inr miss ↦ rw miss (put_event-Apart x.id y es a, put_event-DistinctEvents y es d)
]

-- Marking the job of an event never raises.
mark_outbox_published-ok :
    (e : AnalysisJobOutbox) (message_id : Text) (now : ℕ) (q : Queue)
    → (left : Queue) × (mark_outbox_published e message_id now q ≡ ok left)
      × (left.outbox ≡ put_event (published_event now e) q.outbox)
unfolding mark_outbox_published queue_job_of
mark_outbox_published-ok e message_id now q =
    elim (Option-cases (get_by_id e.analysis_job_id q.jobs)) [
      | inl gone ↦ (
        record { jobs = q.jobs; outbox = put_event (published_event now e) q.outbox },
        rw (mark_outbox_published, queue_job_of, gone) refl,
        refl,
      )
      | inr (job, found) ↦ elim (Result-cases (mark_published message_id now job)) [
        | inl (answer, is) ↦ (
          record {
            jobs = put_answer q.jobs answer;
            outbox = put_event (published_event now e) q.outbox;
          },
          rw (mark_outbox_published, queue_job_of, found, is) refl,
          refl,
        )
        | inr (x, bad) ↦ let fine = mark_published-is_ok message_id now job in absurd (ground arith)
      ]
    ]

module _ (broker : Broker) (now : ℕ)
    (answers : (e : AnalysisJobOutbox) → is_some (broker e) ≡ true) where
  publish_event-ok :
      (e : AnalysisJobOutbox) (q : Queue)
      → (left : Queue) × (publish_event broker now e q ≡ ok (true, left))
        × (left.outbox ≡ put_event (published_event now e) q.outbox)
  unfolding publish_event
  publish_event-ok e q = elim (Option-cases (broker e)) [
    | inl silent ↦ let h = answers e in absurd (ground arith)
    | inr (message_id, there) ↦
        let (left, is, outbox) = mark_outbox_published-ok e message_id now q in
        (left, rw (publish_event, there, is) refl, outbox)
  ]

  -- The loop publishes every event that it is given.
  publish_all-ok :
      (es : List AnalysisJobOutbox) (q : Queue)
      → All (λ (e : AnalysisJobOutbox). is_due now e ≡ true) es
      → DistinctEvents es
      → All (RowOf q.outbox) es
      → DistinctEvents q.outbox
      → (left : Queue) × (publish_all broker now es q ≡ ok (length es, left))
        × (length es + due_count now left.outbox ≡ due_count now q.outbox)
        × (length es + pending_count left.outbox ≡ pending_count q.outbox)
        × DistinctEvents left.outbox
  unfolding publish_all
  publish_all-ok [] q d a r keys = (q, refl, omega arith, omega arith, keys)
  publish_all-ok (e ∷ es) q (d, due_rest) (a, distinct) (r, rs) keys =
      let (next, is, outbox) = publish_event-ok e q in
      let one = due_count-put_event now e q.outbox d r in
      let waits : is_pending_event e.status ≡ true = ground arith in
      let fewer =
        count-put_event (λ (x : AnalysisJobOutbox). is_pending_event x.status)
          (published_event now e) e q.outbox refl waits refl r in
      let rows : All (RowOf next.outbox) es =
        rw outbox (rows_kept (published_event now e) q.outbox es a rs) in
      let next_keys : DistinctEvents next.outbox =
        rw outbox (put_event-DistinctEvents (published_event now e) q.outbox keys) in
      let (left, more, counted, sent, last_keys) =
        publish_all-ok es next due_rest distinct rows next_keys in
      (
        left,
        rw (is, more) refl,
        omega (arith, one, counted, ap (due_count now) outbox),
        omega (arith, fewer, sent, ap pending_count outbox),
        last_keys,
      )

  -- While the broker answers, and the events have distinct identifiers, a call of the publisher does
  -- not raise. Of the events that are due it publishes as many as its limit allows, and answers their
  -- number: by that number fewer events are pending, and fewer are due; the identifiers stay distinct.
  pub publish_due-drains :
      (limit : ℕ) (q : Queue)
      → DistinctEvents q.outbox
      → (left : Queue) × (publish_due broker now limit q
          ≡ ok (min limit (due_count now q.outbox), left))
        × (due_count now left.outbox ≡ due_count now q.outbox - limit)
        × (pending_count left.outbox + min limit (due_count now q.outbox) ≡ pending_count q.outbox)
        × DistinctEvents left.outbox
  unfolding publish_due list_publishable_outbox
  publish_due-drains limit q d =
      let due_ones = filter (is_due now) q.outbox in
      let sorted = sort_by_created_at due_ones in
      let es = take limit sorted in
      let passing =
        All-take _ limit sorted (All-sort _ due_ones (all_pass (is_due now) q.outbox)) in
      let distinct =
        take-DistinctEvents limit sorted
          (sort-DistinctEvents due_ones (filter-DistinctEvents (is_due now) q.outbox d)) in
      let rows =
        All-take _ limit sorted
          (All-sort _ due_ones (All-filter _ (is_due now) q.outbox (rows_of_all q.outbox d))) in
      let (left, is, counted, sent, keys) = publish_all-ok es q passing distinct rows d in
      let size : length es ≡ min limit (due_count now q.outbox) =
        length-take-min limit sorted
        ∙ ap (min limit) (length-sort due_ones ∙ length-filter-count (is_due now) q.outbox) in
      (
        left,
        is ∙ ap (λ n. ok (n, left)) size,
        omega (arith, counted, size),
        omega (arith, sent, size),
        keys,
      )
