-- ===== src/Results/Transactions.antt =====
-- The boundary that commits or rolls back: class TransactionBoundary of
-- apps/api/src/boardtrace_api/db/transactions.py. An operation stages its changes on the database
-- that the session sees; the hook before the commit and the commit itself are parameters, which
-- may raise.
use boardtrace.Prelude.{Result, ok, err, ◌>>=◌, ◌>>◌}
use boardtrace.Results.Rows.{Database}

abbrev pub Staged : Type 0 → Type 0 → Type 0
Staged E A = Database → Result E (A × Database)

abbrev pub settle : {E A : Type 0} → Database → Result E (A × Database) → Result E A × Database
settle database (ok (result, written)) = (ok result, written)
settle database (err e) = (err e, database)

-- The answer and the database that is left behind.
unfoldable pub execute :
    {E A : Type 0} → Result E Unit → Result E Unit → Staged E A → Database → Result E A × Database
execute before_commit commit operation database =
    settle database (do answer ← operation database; before_commit; commit; ok answer)
