-- ===== src/Brainstorm/Limits/Samples.antt =====
-- The limits of server/brainstorm/limits.py on one session.
use agent_colab.Prelude.{false}
use agent_colab.Brainstorm.Limits.{TurnState}

abbrev fourth_turn : TurnState
fourth_turn = record {
  total_turns = 3;
  contributor_turns = 1;
  consecutive_turns = 1;
  is_last_contributor = false;
  spent_cost_units = 10;
  started_at = 0;
  now = 60000000;
}
