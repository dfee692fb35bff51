-- ===== src/Jobs/Events.antt =====
-- The rows of the outbox: distinct identifiers, and the events that are due, under the methods of
-- class AnalysisJobRepository that select and write them.
use boardtrace.Prelude.{
  leb, ◌==◌, Bool-cases, length, take, filter, find, count, All, All-filter, ℕ, zero, suc, min, ◌≡◌,
  refl, ap, ◌∙◌, inl, inr, Bool, true, false, ◌&&◌, some, List, [], ◌∷◌, arith,
}
use boardtrace.Jobs.Row.{AnalysisJobOutbox}
use boardtrace.Jobs.Table.{
  due, is_pending_event, insert_by_created_at, sort_by_created_at, put_event,
}
use boardtrace.Jobs.Publisher.{published_event}

abbrev pub Apart : ℕ → List AnalysisJobOutbox → Type 0
Apart id es = All (λ (e : AnalysisJobOutbox). (e.id == id) ≡ false) es

-- The events have distinct identifiers.
abbrev pub DistinctEvents : List AnalysisJobOutbox → Type 0
DistinctEvents [] = Unit
DistinctEvents (e ∷ es) = Apart e.id es × DistinctEvents es

-- The event is the row of its identifier.
abbrev pub RowOf : List AnalysisJobOutbox → AnalysisJobOutbox → Type 0
RowOf es e = find (λ (x : AnalysisJobOutbox). x.id == e.id) es ≡ some e

abbrev pub is_due : ℕ → AnalysisJobOutbox → Bool
is_due now e = is_pending_event e.status && due e.next_attempt_at now

abbrev pub due_count : ℕ → List AnalysisJobOutbox → ℕ
due_count now es = count (is_due now) es

abbrev pub pending_count : List AnalysisJobOutbox → ℕ
pending_count es = count (λ (e : AnalysisJobOutbox). is_pending_event e.status) es

-- Writing an event that no longer passes a test leaves one less that passes.
pub count-put_event :
    (p : AnalysisJobOutbox → Bool) (y e : AnalysisJobOutbox) (es : List AnalysisJobOutbox)
    → y.id ≡ e.id
    → p e ≡ true
    → p y ≡ false
    → RowOf es e
    → suc (count p (put_event y es)) ≡ count p es
unfolding put_event
count-put_event p y e [] i d f h = absurd (ground arith)
count-put_event p y e (x ∷ es) i d f h = elim (Bool-cases (x.id == e.id)) [
  | inl hit ↦
      let same : x ≡ e = ground arith in
      let here : (e.id == y.id) ≡ true = ground arith in rw (same, here, d, f) refl
  | inr miss ↦
      let rest = count-put_event p y e es i d f (ground arith) in
      let apart : (x.id == y.id) ≡ false = ground arith in
      elim (Bool-cases (p x)) [
        | inl passes ↦ rw (apart, passes) (ap suc rest)
        | inr fails ↦ rw (apart, fails) rest
      ]
]

-- Publishing an event that is due leaves one due event less.
pub due_count-put_event :
    (now : ℕ) (e : AnalysisJobOutbox) (es : List AnalysisJobOutbox)
    → is_due now e ≡ true
    → RowOf es e
    → suc (due_count now (put_event (published_event now e) es)) ≡ due_count now es
due_count-put_event now e es d h =
    count-put_event (is_due now) (published_event now e) e es refl d refl h

-- The other events are as they were.
pub put_event-RowOf :
    (y e : AnalysisJobOutbox) (es : List AnalysisJobOutbox)
    → (e.id == y.id) ≡ false
    → RowOf es e
    → RowOf (put_event y es) e
unfolding put_event
put_event-RowOf y e [] a h = h
put_event-RowOf y e (x ∷ es) a h = elim (Bool-cases (x.id == y.id)) [
  | inl hit ↦
      let other : (y.id == e.id) ≡ false = ground arith in
      let skipped : (x.id == e.id) ≡ false = ground arith in ground arith
  | inr miss ↦ elim (Bool-cases (x.id == e.id)) [
    | inl found ↦ ground arith
    | inr lost ↦
        let rest : RowOf (put_event y es) e = put_event-RowOf y e es a (ground arith) in
        ground arith
  ]
]

pub rows_kept :
    (y : AnalysisJobOutbox) (o es : List AnalysisJobOutbox)
    → Apart y.id es
    → All (RowOf o) es
    → All (RowOf (put_event y o)) es
rows_kept y o [] a r = tt
rows_kept y o (e ∷ es) (a, apart) (r, rs) = (put_event-RowOf y e o a r, rows_kept y o es apart rs)

pub All-take :
    (P : AnalysisJobOutbox → Type 0) (n : ℕ) (es : List AnalysisJobOutbox)
    → All P es
    → All P (take n es)
unfolding take
All-take P zero es a = tt
All-take P (suc n) [] a = tt
All-take P (suc n) (e ∷ es) (p, a) = (p, All-take P n es a)

pub All-insert :
    (P : AnalysisJobOutbox → Type 0) (e : AnalysisJobOutbox) (es : List AnalysisJobOutbox)
    → P e
    → All P es
    → All P (insert_by_created_at e es)
unfolding insert_by_created_at
All-insert P e [] p a = (p, tt)
All-insert P e (x ∷ es) p (q, a) = elim (Bool-cases (leb e.created_at x.created_at)) [
  | inl before ↦ rw before (p, (q, a))
  | inr after ↦ rw after (q, All-insert P e es p a)
]

pub All-sort :
    (P : AnalysisJobOutbox → Type 0) (es : List AnalysisJobOutbox)
    → All P es
    → All P (sort_by_created_at es)
unfolding sort_by_created_at
All-sort P [] a = tt
All-sort P (e ∷ es) (p, a) = All-insert P e (sort_by_created_at es) p (All-sort P es a)

pub insert-DistinctEvents :
    (e : AnalysisJobOutbox) (es : List AnalysisJobOutbox)
    → Apart e.id es
    → DistinctEvents es
    → DistinctEvents (insert_by_created_at e es)
unfolding insert_by_created_at
insert-DistinctEvents e [] a d = (tt, tt)
insert-DistinctEvents e (x ∷ es) (a, apart) (b, d) =
    elim (Bool-cases (leb e.created_at x.created_at)) [
      | inl before ↦ rw before ((a, apart), (b, d))
      | inr after ↦
          let back : (e.id == x.id) ≡ false = ground arith in
          rw after (
            All-insert (λ (y : AnalysisJobOutbox). (y.id == x.id) ≡ false) e es back b,
            insert-DistinctEvents e es apart d,
          )
    ]

pub sort-DistinctEvents :
    (es : List AnalysisJobOutbox) → DistinctEvents es → DistinctEvents (sort_by_created_at es)
unfolding sort_by_created_at
sort-DistinctEvents [] d = tt
sort-DistinctEvents (e ∷ es) (a, d) =
    insert-DistinctEvents e (sort_by_created_at es)
      (All-sort (λ (y : AnalysisJobOutbox). (y.id == e.id) ≡ false) es a) (sort-DistinctEvents es d)

pub filter-DistinctEvents :
    (p : AnalysisJobOutbox → Bool) (es : List AnalysisJobOutbox)
    → DistinctEvents es
    → DistinctEvents (filter p es)
filter-DistinctEvents p [] d = tt
filter-DistinctEvents p (e ∷ es) (a, d) = elim (Bool-cases (p e)) [
  | inl kept ↦ rw kept (
    All-filter (λ (y : AnalysisJobOutbox). (y.id == e.id) ≡ false) p es a,
    filter-DistinctEvents p es d,
  )
  | inr dropped ↦ rw dropped (filter-DistinctEvents p es d)
]

pub take-DistinctEvents :
    (n : ℕ) (es : List AnalysisJobOutbox) → DistinctEvents es → DistinctEvents (take n es)
unfolding take
take-DistinctEvents zero es d = tt
take-DistinctEvents (suc n) [] d = tt
take-DistinctEvents (suc n) (e ∷ es) (a, d) = (
  All-take (λ (y : AnalysisJobOutbox). (y.id == e.id) ≡ false) n es a,
  take-DistinctEvents n es d,
)

pub rows_later :
    (x : AnalysisJobOutbox) (o es : List AnalysisJobOutbox)
    → Apart x.id es
    → All (RowOf o) es
    → All (RowOf (x ∷ o)) es
rows_later x o [] a r = tt
rows_later x o (e ∷ es) (a, apart) (r, rs) =
    let other : (x.id == e.id) ≡ false = ground arith in (rw other r, rows_later x o es apart rs)

-- Among distinct events each is the row of its identifier.
pub rows_of_all : (es : List AnalysisJobOutbox) → DistinctEvents es → All (RowOf es) es
rows_of_all [] d = tt
rows_of_all (e ∷ es) (a, d) = (ground arith, rows_later e es es a (rows_of_all es d))

pub all_pass :
    (p : AnalysisJobOutbox → Bool) (es : List AnalysisJobOutbox)
    → All (λ (e : AnalysisJobOutbox). p e ≡ true) (filter p es)
all_pass p [] = tt
all_pass p (e ∷ es) = elim (Bool-cases (p e)) [
  | inl kept ↦ rw kept (kept, all_pass p es)
  | inr dropped ↦ rw dropped (all_pass p es)
]

pub length-insert :
    (e : AnalysisJobOutbox) (es : List AnalysisJobOutbox)
    → length (insert_by_created_at e es) ≡ suc (length es)
unfolding insert_by_created_at
length-insert e [] = refl
length-insert e (x ∷ es) = ground (arith, length-insert e es)

pub length-sort : (es : List AnalysisJobOutbox) → length (sort_by_created_at es) ≡ length es
unfolding sort_by_created_at
length-sort [] = refl
length-sort (e ∷ es) = length-insert e (sort_by_created_at es) ∙ ap suc (length-sort es)

pub length-filter-count :
    (p : AnalysisJobOutbox → Bool) (es : List AnalysisJobOutbox) → length (filter p es) ≡ count p es
length-filter-count p [] = refl
length-filter-count p (e ∷ es) = ground (arith, length-filter-count p es)

pub length-take-min : (n : ℕ) (es : List AnalysisJobOutbox) → length (take n es) ≡ min n (length es)
unfolding take
length-take-min zero es = omega arith
length-take-min (suc n) [] = omega arith
length-take-min (suc n) (e ∷ es) = omega (arith, length-take-min n es)
