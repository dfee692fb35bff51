-- ===== src/Delivery/Once.antt =====
-- A player gets an analysis once, and no other player gets it.
use boardtrace.Prelude.{
  ◌==◌, Bool-cases, Option-cases, is_some, count, any, ok, err, Result-cases, ℕ, ◌≡◌, refl, sym, ap,
  ◌∙◌, ◌⊎◌, inl, inr, Bool, true, false, ◌&&◌, none, some, arith,
}
use boardtrace.FullGame.Replay.{finished, analysis_available, Chess}
use boardtrace.Moves.Classes.{CentipawnLossThresholdPolicy, UciParser}
use boardtrace.Results.Rows.{
  Game, Database, game_status_eq, get_game, put_game, position_of_run, move_of_run,
}
use boardtrace.Results.Published.{found_after}
use boardtrace.Results.Authority.{count-filter-not}
use boardtrace.Delivery.Public.{
  PublicGameAnalysisResponse, DeliveryError, not_found, consumed_run, without_run, taken_back,
  consume_public_generation, is_released, response_for, deliver,
}
use boardtrace.Results.Complete.{current_job}
use boardtrace.Delivery.Status.{
  readiness_failed, PublicAnalysisStatusResponse, visible, authority_of,
  get_owner_readiness_authority, readiness_of, map_public_readiness, polling_guidance, status_of,
  read_status,
}
use boardtrace.Jobs.Status.{succeeded}
use boardtrace.Jobs.Row.{AnalysisJob}

not_yet : (has_run : Bool) → readiness_of succeeded has_run finished ≡ readiness_failed
unfolding readiness_of
not_yet true = refl
not_yet false = refl

-- A consumption that succeeds.
consume-true :
    (run_id game_id : ℕ) (d : Database) {e : Database}
    → consume_public_generation run_id game_id d ≡ (true, e)
    → (game : Game) × (get_game game_id d.games ≡ some game)
      × (e ≡ record (without_run run_id game_id d) { games = put_game (taken_back game) d.games })
unfolding consume_public_generation
consume-true run_id game_id d {e} h = elim (Bool-cases (any (consumed_run run_id game_id) d.runs)) [
  | inr absent ↦ absurd (ground arith)
  | inl there ↦ elim (Option-cases (get_game game_id d.games)) [
    | inl gone ↦ absurd (ground arith)
    | inr (game, found) ↦ (game, found, ground arith)
  ]
]

-- The run that is consumed was there.
consume-there :
    (run_id game_id : ℕ) (d : Database) {e : Database}
    → consume_public_generation run_id game_id d ≡ (true, e)
    → any (consumed_run run_id game_id) d.runs ≡ true
unfolding consume_public_generation
consume-there run_id game_id d {e} h =
    elim (Bool-cases (any (consumed_run run_id game_id) d.runs)) [
      | inr absent ↦ absurd (ground arith)
      | inl there ↦ there
    ]

module _ (chess : Chess) (same_move : chess.Move → chess.Move → Bool) (parse_uci : UciParser)
    (policy : CentipawnLossThresholdPolicy) (scale : ℕ) where
  deliver-ok :
      (game_id user_id : ℕ) (d : Database) {r : PublicGameAnalysisResponse} {e : Database}
      → deliver chess same_move parse_uci policy scale game_id user_id d ≡ (ok r, e)
      → (run_id : ℕ) × (response_for chess same_move parse_uci policy scale game_id user_id d
          ≡ ok (r, run_id))
        × (consume_public_generation run_id game_id d ≡ (true, e))
  unfolding deliver
  deliver-ok game_id user_id d {r} {e} h =
      elim (Result-cases (response_for chess same_move parse_uci policy scale game_id user_id d)) [
        | inr (x, bad) ↦ absurd (ground arith)
        | inl ((response, run_id), answers) ↦
            elim (Bool-cases (consume_public_generation run_id game_id d).0) [
              | inr kept ↦ absurd (ground arith)
              | inl taken ↦ (run_id, ground arith, ground arith)
            ]
      ]

  response_for-is_released :
      (game_id user_id : ℕ) (d : Database) {r : PublicGameAnalysisResponse × ℕ}
      → response_for chess same_move parse_uci policy scale game_id user_id d ≡ ok r
      → is_released game_id user_id d ≡ true
  unfolding response_for
  response_for-is_released game_id user_id d {r} h =
      elim (Bool-cases (is_released game_id user_id d)) [
        | inl released ↦ released
        | inr withheld ↦ absurd (ground arith)
      ]

  -- Who is answered owns the game, whose analysis was available; the game is taken back, and the
  -- run that the answer was read from, which was there, is gone with every record of it.
  pub delivered_to_owner :
      (game_id user_id : ℕ) (d : Database) {r : PublicGameAnalysisResponse} {e : Database}
      → deliver chess same_move parse_uci policy scale game_id user_id d ≡ (ok r, e)
      → (game : Game) × (run_id : ℕ) × (get_game game_id d.games ≡ some game)
        × (response_for chess same_move parse_uci policy scale game_id user_id d ≡ ok (r, run_id))
        × (any (consumed_run run_id game_id) d.runs ≡ true)
        × (game.user_id ≡ user_id)
        × (game.status ≡ analysis_available)
        × (is_some game.completion_verified_at ≡ true)
        × (get_game game_id e.games ≡ some (taken_back game))
        × (count (consumed_run run_id game_id) e.runs ≡ 0)
        × (count (position_of_run run_id) e.positions ≡ 0)
        × (count (move_of_run run_id) e.moves ≡ 0)
  unfolding is_released
  delivered_to_owner game_id user_id d {r} {e} h =
      let (run_id, answered, taken) = deliver-ok game_id user_id d h in
      let released = response_for-is_released game_id user_id d answered in
      let (game, found, left) = consume-true run_id game_id d taken in
      let there = consume-there run_id game_id d taken in
      let seen : (game.user_id == user_id
            && game_status_eq game.status analysis_available
            && is_some game.completion_verified_at)
          ≡ true =
        ap
          (λ o. elim o [
            | none ↦ false
            | some g ↦
                g.user_id == user_id
                && game_status_eq g.status analysis_available
                && is_some g.completion_verified_at
          ])
          (sym found)
        ∙ released in
      (
        game,
        run_id,
        found,
        answered,
        there,
        ground arith,
        ground arith,
        ground arith,
        ap (get_game game_id) (ap Database.games left)
            ∙ found_after game_id d.games game (taken_back game) found refl,
        ap (count (consumed_run run_id game_id)) (ap Database.runs left)
            ∙ count-filter-not (consumed_run run_id game_id) d.runs,
        ap (count (position_of_run run_id)) (ap Database.positions left)
            ∙ count-filter-not (position_of_run run_id) d.positions,
        ap (count (move_of_run run_id)) (ap Database.moves left)
            ∙ count-filter-not (move_of_run run_id) d.moves,
      )

  -- Once an analysis was delivered, every further request for the game finds nothing, whoever makes it, and
  -- changes nothing.
  pub delivered_once :
      (game_id user_id other_id : ℕ) (d : Database) {r : PublicGameAnalysisResponse} {e : Database}
      → deliver chess same_move parse_uci policy scale game_id user_id d ≡ (ok r, e)
      → deliver chess same_move parse_uci policy scale game_id other_id e ≡ (err not_found, e)
  unfolding deliver response_for is_released
  delivered_once game_id user_id other_id d {r} {e} h =
      let (game, run_id, _, _, _, _, _, _, after, _, _, _) =
        delivered_to_owner game_id user_id d h in
      let withheld : is_released game_id other_id e ≡ false =
        rw (is_released, after) (ground arith) in
      rw (deliver, response_for, withheld) refl

  -- A request that raises leaves the database as it was.
  pub refused_unchanged :
      (game_id user_id : ℕ) (d : Database)
      → let (answer, e) = deliver chess same_move parse_uci policy scale game_id user_id d in
        ((r : PublicGameAnalysisResponse) × (answer ≡ ok r))
        ⊎ ((x : DeliveryError) × (answer ≡ err x) × (e ≡ d))
  unfolding deliver
  refused_unchanged game_id user_id d =
      elim (Result-cases (response_for chess same_move parse_uci policy scale game_id user_id d)) [
        | inr (x, bad) ↦ inr (x, rw (deliver, bad) refl, rw (deliver, bad) refl)
        | inl ((response, run_id), answers) ↦
            elim (Bool-cases (consume_public_generation run_id game_id d).0) [
              | inr kept ↦
                  inr
                    (not_found, rw (deliver, answers, kept) refl, rw (deliver, answers, kept) refl)
              | inl taken ↦ inl (response, rw (deliver, answers, taken) refl)
            ]
      ]

  -- Once an analysis was delivered, whose job had succeeded, the status of the game is that the
  -- analysis failed, with no result and no advice to ask again.
  pub delivered_status :
      (game_id user_id : ℕ) (d : Database) (job : AnalysisJob) {r : PublicGameAnalysisResponse}
      {e : Database}
      → deliver chess same_move parse_uci policy scale game_id user_id d ≡ (ok r, e)
      → current_job game_id d.jobs ≡ some job
      → job.status ≡ succeeded
      → (status : PublicAnalysisStatusResponse) × (read_status game_id user_id e ≡ some status)
        × (status.readiness ≡ readiness_failed)
        × (status.result_available ≡ false)
        × (status.polling.should_retry ≡ false)
  unfolding read_status get_owner_readiness_authority map_public_readiness readiness_of
      polling_guidance
  delivered_status game_id user_id d job {r} {e} h current done =
      let (run_id, _, taken) = deliver-ok game_id user_id d h in
      let (_, _, left) = consume-true run_id game_id d taken in
      let (game, _, _, _, _, owner, _, verified, after, _, _, _) =
        delivered_to_owner game_id user_id d h in
      let now : current_job game_id e.jobs ≡ some job =
        ap (λ (x : Database). current_job game_id x.jobs) left ∙ current in
      let seen : (game.user_id == user_id && is_some game.completion_verified_at) ≡ true =
        ground arith in
      let is_visible : (visible (taken_back game) user_id) ≡ true = ground arith in
      let a : get_owner_readiness_authority game_id user_id e
          ≡ some (authority_of (taken_back game) (some job) e) =
        rw (get_owner_readiness_authority, after, is_visible, now) refl in
      let failed_now : map_public_readiness (authority_of (taken_back game) (some job) e)
          ≡ readiness_failed =
        rw done (not_yet _) in
      (
        status_of (authority_of (taken_back game) (some job) e),
        rw (read_status, a) refl,
        failed_now,
        rw failed_now refl,
        rw (failed_now, done) refl,
      )
