-- ===== src/Alerts/Store.antt =====
-- The tables of packages/obs-collector/src/lib/alerts-store.ts that an evaluation reads and writes, and
-- the types of packages/obs-types/src/types/alerts.ts. A JavaScript number is an element of the
-- parameter `Number`, with its test `<`.
use obs_unified.Common.{ℕ, Bool, not, List, [], ◌∷◌, ◌++◌, Option, none, some, if◌then◌else◌}
use obs_unified.Common.Text.{Text, text_eq}

pub data Comparison : Type 0 where
  gt ge lt le : Comparison

pub data Signal : Type 0 where
  spans logs usage ai : Signal

pub data State : Type 0 where
  is_ok firing : State

pub record Channel : Type 0 where
  pub url : Text
  pub headers : List (Text × Text)

pub record Rule (Number : Type 0) : Type 0 where
  pub id : Text
  pub project_id : Text
  pub name : Text
  pub signal : Signal
  pub threshold : Number
  pub comparison : Comparison
  pub channels : List Channel
  pub analysis_id : Option Text

-- Numbers that are not NaN, ordered by `<`: `a <= b` is `!(b < a)`.
unfoldable pub compare_value :
    {Number : Type 0} → (Number → Number → Bool) → Number → Number → Comparison → Bool
compare_value less value threshold gt = less threshold value
compare_value less value threshold ge = not (less value threshold)
compare_value less value threshold lt = less value threshold
compare_value less value threshold le = not (less threshold value)

pub record StateRow : Type 0 where
  pub rule_id : Text
  pub project_id : Text
  pub current_state : State
  pub last_state_change : ℕ

pub record EvaluationRow (Number : Type 0) : Type 0 where
  pub id : Text
  pub rule_id : Text
  pub project_id : Text
  pub evaluated_at : ℕ
  pub value : Number
  pub state : State
  pub notified : Bool

pub record Tables (Number : Type 0) : Type 0 where
  pub alert_state : List StateRow
  pub alert_evaluations : List (EvaluationRow Number)

-- `SELECT … FROM alert_state WHERE rule_id = ?`; the column is the primary key.
unfoldable pub get_state : Text → List StateRow → Option State
get_state rule_id [] = none
get_state rule_id (row ∷ rows) =
    if text_eq row.rule_id rule_id then some row.current_state else get_state rule_id rows

-- `INSERT … ON CONFLICT(rule_id) DO UPDATE`: the project of a row that is there stays.
unfoldable pub upsert_state : StateRow → List StateRow → List StateRow
upsert_state new [] = new ∷ []
upsert_state new (row ∷ rows) =
    if text_eq row.rule_id new.rule_id
    then record row { current_state = new.current_state; last_state_change = new.last_state_change }
      ∷ rows
    else row ∷ upsert_state new rows

module _ {Number : Type 0} where
  unfoldable pub transition_state : Text → Text → State → ℕ → Tables Number → Tables Number
  transition_state rule_id project_id state now t = record t {
    alert_state =
        upsert_state
          (record {
            rule_id = rule_id;
            project_id = project_id;
            current_state = state;
            last_state_change = now;
          })
          t.alert_state;
  }

  unfoldable pub record_evaluation : EvaluationRow Number → Tables Number → Tables Number
  record_evaluation row t = record t { alert_evaluations = t.alert_evaluations ++ row ∷ [] }
