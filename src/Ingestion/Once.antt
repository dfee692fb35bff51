-- ===== src/Ingestion/Once.antt =====
-- A game that is ingested again.
use boardtrace.Prelude.{
  ◌==◌, Bool-cases, Option-cases, find, any, find-true, find-snoc, ok, err, Result-cases, Text,
  text_eq, text_eq_refl, eq_of_text_eq, ℕ, ◌≡◌, refl, sym, ap, ◌∙◌, inl, inr, Bool, true, false,
  ◌&&◌, Option, none, some, List, [], ◌∷◌, ◌++◌, arith,
}
use boardtrace.Results.Rows.{Game, game_status_eq, get_game}
use boardtrace.Ingestion.Service.{
  Store, conflict, Draws, is_eligible, create_for_completed_game, has_key, with_job, belongs,
  serve_existing, new_game, excludes, after_violation, insert_or_serve, ingest,
}
use boardtrace.FullGame.Replay.{analysis_available}
use boardtrace.Jobs.Table.{get_by_game_profile_version, standard, create_if_absent}
use boardtrace.Jobs.Uniqueness.{create_there, create_if_absent-found}
use boardtrace.Ingestion.Provenance.{Digests, CompletedGameIngestionRequest, validate_source}
use boardtrace.Jobs.Row.{AnalysisJob, text_is}

-- The game and its job are in one store as they are in the other.
abbrev pub SameFor : ℕ → Store → Store → Type 0
SameFor game_id s t =
    (get_game game_id t.games ≡ get_game game_id s.games)
    × (get_by_game_profile_version game_id standard 1 t.queue.jobs
        ≡ get_by_game_profile_version game_id standard 1 s.queue.jobs)

-- Other sessions leave a game that is there under the key.
abbrev pub Keeps : (Store → Store) → Text → Store → Type 0
Keeps concurrent key s =
    (x : Game)
    → find (has_key key) s.games ≡ some x
    → find (has_key key) (concurrent s).games ≡ some x

-- A job that is there is created again in whatever store has it and its game.
with_job-there :
    (draws : Draws) (enqueue : Bool) (game row : Game) (job : AnalysisJob) (t : Store)
    → get_game game.id t.games ≡ some row
    → is_eligible row ≡ true
    → get_by_game_profile_version row.id standard 1 t.queue.jobs ≡ some job
    → with_job draws enqueue game t ≡ ok (game, t)
unfolding with_job create_for_completed_game
with_job-there draws enqueue game row job t found granted there =
    let made =
      create_there draws.proposed_id draws.event_id row.id row.user_id draws.correlation_id
        draws.now enqueue t.queue job there in
    rw (found, granted, made) refl

-- The job of a game that has one is created again.
pub with_job-again :
    (draws : Draws) (enqueue : Bool) (game : Game) (s : Store) {g : Game} {s' : Store}
    → with_job draws enqueue game s ≡ ok (g, s')
    → (g ≡ game)
      × (s'.games ≡ s.games)
      × ((draws' : Draws) (enqueue' : Bool) (t : Store)
          → SameFor game.id s' t
          → with_job draws' enqueue' game t ≡ ok (game, t))
unfolding with_job create_for_completed_game get_game
with_job-again draws enqueue game s {g} {s'} h = elim (Option-cases (get_game game.id s.games)) [
  | inl gone ↦ absurd (ground arith)
  | inr (row, found) ↦ elim (Bool-cases (is_eligible row)) [
    | inr refused ↦ absurd (ground arith)
    | inl granted ↦
        let (job, queue) =
          create_if_absent draws.proposed_id draws.event_id row.id row.user_id draws.correlation_id
            draws.now enqueue s.queue in
        let same : s' ≡ record s { queue = queue } = ground arith in
        let hit = find-true (λ (x : Game). x.id == game.id) s.games found in
        let named : game.id ≡ row.id = ground arith in
        let there =
          create_if_absent-found draws.proposed_id draws.event_id row.id row.user_id
            draws.correlation_id draws.now enqueue s.queue in
        let kept = ap Store.games same in
        (
          ground arith,
          kept,
          λ draws' enqueue' t (games, jobs).
              with_job-there draws' enqueue' game row job t
                (games ∙ ap (get_game game.id) kept ∙ found) granted
                (sym (ap (λ k. get_by_game_profile_version k standard 1 t.queue.jobs) named)
                  ∙ jobs
                  ∙ ap (λ k. get_by_game_profile_version k standard 1 s'.queue.jobs) named
                  ∙ ap (λ (x : Store). get_by_game_profile_version row.id standard 1 x.queue.jobs)
                      same
                  ∙ there),
        )
  ]
]

-- A game that is served as the one of its key is served so again.
pub serve_existing-again :
    (draws : Draws) (enqueue : Bool) (user_id : ℕ) (source_checksum : Text) (existing : Game)
    (s : Store) {g : Game} {s' : Store}
    → serve_existing draws enqueue user_id source_checksum existing s ≡ ok (g, s')
    → (g ≡ existing)
      × (s'.games ≡ s.games)
      × (belongs user_id source_checksum existing ≡ true)
      × ((draws' : Draws) (enqueue' : Bool) (t : Store)
          → SameFor existing.id s' t
          → serve_existing draws' enqueue' user_id source_checksum existing t ≡ ok (existing, t))
unfolding serve_existing
serve_existing-again draws enqueue user_id source_checksum existing s {g} {s'} h =
    elim (Bool-cases (belongs user_id source_checksum existing)) [
      | inr foreign ↦ absurd (ground arith)
      | inl own ↦ elim (Bool-cases (game_status_eq existing.status analysis_available)) [
        | inl available ↦
            (ground arith, ground arith, own, λ draws' enqueue' t k. rw (own, available) refl)
        | inr closed ↦
            let (same, kept, again) =
              with_job-again draws enqueue existing s {g = g} {s' = s'} (ground arith) in
            (same, kept, own, λ draws' enqueue' t k. rw (own, closed) (again draws' enqueue' t k))
      ]
    ]

find-unless-any :
    {A : Type 0} (p q : A → Bool) (xs : List A)
    → ((x : A) → p x ≡ true → q x ≡ true)
    → any q xs ≡ false
    → find p xs ≡ none
find-unless-any p q [] imp h = refl
find-unless-any p q (x ∷ xs) imp h = ground (arith, imp x, find-unless-any p q xs imp)

-- What an ingestion leaves: the game that it answers is the one of the key, it belongs to the
-- player and the content, and it is served as such again.
pub record Ingested (key : Text) (user_id : ℕ) (source_checksum : Text) (g : Game) (s : Store)
    : Type 0 where
  pub found : find (has_key key) s.games ≡ some g
  pub own : belongs user_id source_checksum g ≡ true
  pub again :
      (draws : Draws) (enqueue : Bool) (t : Store)
      → SameFor g.id s t
      → serve_existing draws enqueue user_id source_checksum g t ≡ ok (g, t)

serve_existing-Ingested :
    (draws : Draws) (enqueue : Bool) (user_id : ℕ) (source_checksum key : Text) (existing : Game)
    (s : Store) {g : Game} {s' : Store}
    → find (has_key key) s.games ≡ some existing
    → serve_existing draws enqueue user_id source_checksum existing s ≡ ok (g, s')
    → Ingested key user_id source_checksum g s'
serve_existing-Ingested draws enqueue user_id source_checksum key existing s {g} {s'} found h =
    let (same, kept, own, again) =
      serve_existing-again draws enqueue user_id source_checksum existing s h in
    record { found = rw (kept, same) found; own = rw same own; again = rw same again }

new_game-Ingested :
    (draws : Draws) (enqueue : Bool) (user_id : ℕ) (source_checksum : Text)
    (payload : CompletedGameIngestionRequest) (s : Store) {g : Game} {s' : Store}
    → any (excludes draws.new_game_id user_id payload) s.games ≡ false
    → insert_or_serve draws enqueue user_id source_checksum payload s ≡ ok (g, s')
    → Ingested payload.idempotency_key user_id source_checksum g s'
unfolding insert_or_serve serve_existing new_game
new_game-Ingested draws enqueue user_id source_checksum payload s {g} {s'} free h =
    let game = new_game draws user_id source_checksum payload in
    let key = payload.idempotency_key in
    let made : with_job draws enqueue game (record s { games = s.games ++ game ∷ [] })
        ≡ ok (g, s') =
      ground arith in
    let (same, kept, again) =
      with_job-again draws enqueue game (record s { games = s.games ++ game ∷ [] }) made in
    let absent : find (has_key key) s.games ≡ none =
      find-unless-any (has_key key) (excludes draws.new_game_id user_id payload) s.games
        (λ x hit. ground arith) free in
    let here : find (has_key key) (s.games ++ game ∷ []) ≡ some game =
      find-snoc (has_key key) s.games game absent (text_eq_refl key) in
    let own : belongs user_id source_checksum game ≡ true =
      ground (arith, text_eq_refl source_checksum) in
    record {
      found = rw (kept, same) here;
      own = rw same own;
      again = rw same (λ draws' enqueue' t k. rw own (again draws' enqueue' t k));
    }

insert_or_serve-Ingested :
    (draws : Draws) (enqueue : Bool) (user_id : ℕ) (source_checksum : Text)
    (payload : CompletedGameIngestionRequest) (s : Store) {g : Game} {s' : Store}
    → insert_or_serve draws enqueue user_id source_checksum payload s ≡ ok (g, s')
    → Ingested payload.idempotency_key user_id source_checksum g s'
unfolding insert_or_serve after_violation
insert_or_serve-Ingested draws enqueue user_id source_checksum payload s {g} {s'} h =
    elim (Bool-cases (any (excludes draws.new_game_id user_id payload) s.games)) [
      | inr free ↦ new_game-Ingested draws enqueue user_id source_checksum payload s free h
      | inl taken ↦ elim (Option-cases (find (has_key payload.idempotency_key) s.games)) [
        | inl gone ↦ absurd (ground arith)
        | inr (existing, found) ↦
            serve_existing-Ingested draws enqueue user_id source_checksum payload.idempotency_key
              existing s found (ground arith)
      ]
    ]

text_is-other : (v : Option Text) (c c' : Text) → text_is v c ≡ true → text_is v c' ≡ text_eq c c'
text_is-other none c c' h = absurd (ground arith)
text_is-other (some v) c c' h = ap (λ w. text_eq w c') (eq_of_text_eq v c h)

-- A game of one user and content does not belong to another.
belongs-other :
    (user_id user_id' : ℕ) (c c' : Text) (g : Game)
    → belongs user_id c g ≡ true
    → user_id == user_id' && text_eq c c' ≡ false
    → belongs user_id' c' g ≡ false
belongs-other user_id user_id' c c' g own other =
    let hit : text_is g.ingestion_payload_hash c ≡ true = ground arith in
    ground (arith, text_is-other g.ingestion_payload_hash c c' hit)

module _ (digests : Digests) (require_checksum : Bool) where
  pub ingest-Ingested :
      (enqueue : Bool) (concurrent : Store → Store) (draws : Draws) (user_id : ℕ)
      (payload : CompletedGameIngestionRequest) (s : Store) {g : Game} {s' : Store}
      → Keeps concurrent payload.idempotency_key s
      → ingest digests require_checksum enqueue concurrent draws user_id payload s ≡ ok (g, s')
      → (source_checksum : Text) × (validate_source digests require_checksum payload
          ≡ ok source_checksum)
        × Ingested payload.idempotency_key user_id source_checksum g s'
  unfolding ingest
  ingest-Ingested enqueue concurrent draws user_id payload s {g} {s'} keeps h =
      elim (Result-cases (validate_source digests require_checksum payload)) [
        | inr (x, bad) ↦ absurd (ground arith)
        | inl (c, valid) ↦ elim (Option-cases (find (has_key payload.idempotency_key) s.games)) [
          | inl absent ↦ (
            c,
            valid,
            insert_or_serve-Ingested draws enqueue user_id c payload (concurrent s) (ground arith),
          )
          | inr (existing, found) ↦ (
            c,
            valid,
            serve_existing-Ingested draws enqueue user_id c payload.idempotency_key existing
                (concurrent s) (keeps existing found) (ground arith),
          )
        ]
      ]

  -- To ingest a game again, whatever identifiers and time the second call draws, answers the same game
  -- and writes nothing: the tables are left as other sessions have made them meanwhile. Those may not
  -- take away or change a game under the key that the first call has found, nor, during the second
  -- call, change the rows of the game and of its job.
  pub ingest_once :
      (enqueue enqueue' : Bool) (concurrent concurrent' : Store → Store) (draws draws' : Draws)
      (user_id : ℕ) (payload : CompletedGameIngestionRequest) (s : Store) {g : Game} {s' : Store}
      → Keeps concurrent payload.idempotency_key s
      → ingest digests require_checksum enqueue concurrent draws user_id payload s ≡ ok (g, s')
      → SameFor g.id s' (concurrent' s')
      → ingest digests require_checksum enqueue' concurrent' draws' user_id payload s'
        ≡ ok (g, concurrent' s')
  unfolding ingest
  ingest_once enqueue enqueue' concurrent concurrent' draws draws' user_id payload s {g} {s'} keeps
        h same =
      let (c, valid, left) = ingest-Ingested enqueue concurrent draws user_id payload s keeps h in
      rw (valid, left.found) (left.again draws' enqueue' (concurrent' s') same)

  -- Once a game was ingested under a key, a call with that key by another user, or with a valid
  -- source of another checksum, is refused as a conflict. Other sessions may not take away or change
  -- a game under the key that the first call has found.
  pub ingest-conflict :
      (enqueue enqueue' : Bool) (concurrent concurrent' : Store → Store) (draws draws' : Draws)
      (user_id user_id' : ℕ) (payload payload' : CompletedGameIngestionRequest) (s : Store)
      {g : Game} {s' : Store} {c c' : Text}
      → Keeps concurrent payload.idempotency_key s
      → ingest digests require_checksum enqueue concurrent draws user_id payload s ≡ ok (g, s')
      → validate_source digests require_checksum payload ≡ ok c
      → validate_source digests require_checksum payload' ≡ ok c'
      → payload'.idempotency_key ≡ payload.idempotency_key
      → user_id == user_id' && text_eq c c' ≡ false
      → ingest digests require_checksum enqueue' concurrent' draws' user_id' payload' s'
        ≡ err conflict
  unfolding ingest serve_existing
  ingest-conflict enqueue enqueue' concurrent concurrent' draws draws' user_id user_id' payload
        payload' s {g} {s'} {c} {c'} keeps h valid valid' same other =
      let (d, at, left) = ingest-Ingested enqueue concurrent draws user_id payload s keeps h in
      let agreed : d ≡ c = ground arith in
      let own : belongs user_id c g ≡ true =
        sym (ap (λ x. belongs user_id x g) agreed) ∙ left.own in
      let found : find (has_key payload'.idempotency_key) s'.games ≡ some g =
        ap (λ key. find (has_key key) s'.games) same ∙ left.found in
      rw (valid', found, belongs-other user_id user_id' c c' g own other) refl
