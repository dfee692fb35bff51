-- ===== src/Results/Config.antt =====
-- The snapshot of the engine's configuration that is stored with a result: class
-- EngineConfigurationSnapshot of apps/api/src/boardtrace_api/services/analysis_results.py.
use boardtrace.Prelude.{
  leb, if◌then◌else◌, Bool-cases, any, Result, ok, err, ◌>>=◌, ◌>>◌, raise_if, Text, codes, text_eq,
  ℕ, ◌≡◌, refl, inl, inr, Bool, true, false, not, ◌&&◌, List, [], ◌∷◌,
}
use boardtrace.Prelude.Int.{ℤ, pos, negsuc}

-- What a field of a JSON object holds; numbers with a fraction, lists and objects are the last.
pub data JsonValue : Type 0 where
  json_int : ℤ → JsonValue
  json_bool : Bool → JsonValue
  json_text : Text → JsonValue
  json_null json_other : JsonValue

-- The keys of an object are distinct.
abbrev pub JsonObject : Type 0
JsonObject = List (Text × JsonValue)

pub data EngineReusePolicy : Type 0 where
  single_process_per_game : EngineReusePolicy

pub record EngineConfigurationSnapshot : Type 0 where
  pub schema_version : ℤ
  pub depth : ℤ
  pub max_position_time_ms : ℤ
  pub max_game_time_ms : ℤ
  pub max_positions : ℤ
  pub max_moves : ℤ
  pub threads : ℤ
  pub hash_mb : ℤ
  pub command_timeout_ms : ℤ
  pub reuse_policy : EngineReusePolicy

-- `low <= a <= high`
abbrev between : ℕ → ℕ → ℤ → Bool
between low high (pos n) = leb low n && leb n high
between low high (negsuc n) = false

-- `__post_init__`
unfoldable pub configuration_accepted : EngineConfigurationSnapshot → Bool
configuration_accepted c =
    between 1 1 c.schema_version
    && between 1 99 c.depth
    && between 1 300000 c.max_position_time_ms
    && between 1 7200000 c.max_game_time_ms
    && between 2 601 c.max_positions
    && between 1 600 c.max_moves
    && between 1 128 c.threads
    && between 1 65536 c.hash_mb
    && between 1 300000 c.command_timeout_ms

abbrev pub policy_text : EngineReusePolicy → Text
policy_text single_process_per_game = codes "SINGLE_PROCESS_PER_GAME"

unfoldable pub as_json : EngineConfigurationSnapshot → JsonObject
as_json c =
    (codes "schema_version", json_int c.schema_version)
    ∷ (codes "depth", json_int c.depth)
    ∷ (codes "max_position_time_ms", json_int c.max_position_time_ms)
    ∷ (codes "max_game_time_ms", json_int c.max_game_time_ms)
    ∷ (codes "max_positions", json_int c.max_positions)
    ∷ (codes "max_moves", json_int c.max_moves)
    ∷ (codes "threads", json_int c.threads)
    ∷ (codes "hash_mb", json_int c.hash_mb)
    ∷ (codes "command_timeout_ms", json_int c.command_timeout_ms)
    ∷ (codes "reuse_policy", json_text (policy_text c.reuse_policy))
    ∷ []

abbrev expected : List Text
expected =
    codes "schema_version"
    ∷ codes "depth"
    ∷ codes "max_position_time_ms"
    ∷ codes "max_game_time_ms"
    ∷ codes "max_positions"
    ∷ codes "max_moves"
    ∷ codes "threads"
    ∷ codes "hash_mb"
    ∷ codes "command_timeout_ms"
    ∷ codes "reuse_policy"
    ∷ []

-- The messages of PersistedAnalysisReadError that the snapshot causes.
pub data SnapshotError : Type 0 where
  fields_mismatch policy_invalid values_invalid : SnapshotError
  not_an_integer : Text → SnapshotError

-- `value[field]`, for a field that is there.
unfoldable pub field_of : JsonObject → Text → JsonValue
field_of [] field = json_null
field_of ((key, value) ∷ rest) field =
    let later = field_of rest field in if text_eq key field then value else later

abbrev has_field : JsonObject → Text → Bool
has_field value field = any (λ (entry : Text × JsonValue). text_eq entry.0 field) value

abbrev all_of : {A : Type 0} → (A → Bool) → List A → Bool
all_of p [] = true
all_of p (x ∷ xs) = p x && all_of p xs

-- `set(value) == expected`
unfoldable pub fields_match : JsonObject → Bool
fields_match value =
    all_of (has_field value) expected
    && all_of (λ (entry : Text × JsonValue). any (text_eq entry.0) expected) value

unfoldable pub snapshot_int : JsonObject → Text → Result SnapshotError ℤ
unfolding field_of
snapshot_int value field = elim (field_of value field) [
  | json_int n ↦ ok n
  | _ ↦ err (not_an_integer field)
]

-- `EngineReusePolicy(policy)`, with the test that it is a text.
unfoldable pub policy_of : JsonValue → Result SnapshotError EngineReusePolicy
policy_of (json_text t) =
    if text_eq t (policy_text single_process_per_game)
    then ok single_process_per_game
    else err values_invalid
policy_of _ = err policy_invalid

unfoldable pub from_json : JsonObject → Result SnapshotError EngineConfigurationSnapshot
from_json value = do
  raise_if (not (fields_match value)) fields_mismatch
  reuse_policy ← policy_of (field_of value (codes "reuse_policy"))
  schema_version ← snapshot_int value (codes "schema_version")
  depth ← snapshot_int value (codes "depth")
  max_position_time_ms ← snapshot_int value (codes "max_position_time_ms")
  max_game_time_ms ← snapshot_int value (codes "max_game_time_ms")
  max_positions ← snapshot_int value (codes "max_positions")
  max_moves ← snapshot_int value (codes "max_moves")
  threads ← snapshot_int value (codes "threads")
  hash_mb ← snapshot_int value (codes "hash_mb")
  command_timeout_ms ← snapshot_int value (codes "command_timeout_ms")
  let configuration : EngineConfigurationSnapshot = record {
    schema_version = schema_version;
    depth = depth;
    max_position_time_ms = max_position_time_ms;
    max_game_time_ms = max_game_time_ms;
    max_positions = max_positions;
    max_moves = max_moves;
    threads = threads;
    hash_mb = hash_mb;
    command_timeout_ms = command_timeout_ms;
    reuse_policy = reuse_policy;
  }
  raise_if (not (configuration_accepted configuration)) values_invalid
  ok configuration

policy_of-policy_text : (p : EngineReusePolicy) → policy_of (json_text (policy_text p)) ≡ ok p
unfolding policy_of text_eq
policy_of-policy_text single_process_per_game = refl

-- A configuration that is written to JSON and read again is the one it was, if the constructor
-- accepts its values, and is refused as invalid otherwise.
pub from_json-as_json :
    (c : EngineConfigurationSnapshot)
    → from_json (as_json c) ≡ (if configuration_accepted c then ok c else err values_invalid)
unfolding from_json as_json fields_match field_of snapshot_int text_eq
from_json-as_json c = elim (Bool-cases (configuration_accepted c)) [
  | inl accepted ↦ rw (policy_of-policy_text c.reuse_policy, accepted) refl
  | inr refused ↦ rw (policy_of-policy_text c.reuse_policy, refused) refl
]
