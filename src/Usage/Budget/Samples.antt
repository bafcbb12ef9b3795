-- ===== src/Usage/Budget/Samples.antt =====
-- A daily budget of an Agent with one reservation and some usage.
use agent_colab.Prelude.Transactions.{After}
use agent_colab.Prelude.{ok, ℕ, ◌+◌, false, none, some, [], ◌∷◌}
use agent_colab.Events.Store.{EventStore}
use agent_colab.Usage.Budget.{reserved, BudgetScope, Budgets, Texts, Readings, Request, try_reserve}
use agent_colab.Usage.Budget.Granted.{Fits, try_reserve-Fits}
use agent_colab.Schedules.Contract.{pos}

abbrev numbered : EventStore
numbered = record {
  State = ℕ;
  append = λ request n. ok (
    record {
      event_id = request.idempotency_key;
      aggregate_seq = n + 1;
      content_hash = "h";
      recorded_seq = n + 1;
      replayed = false;
    },
    n + 1,
  );
  last_event_id = λ w a i n. none;
}

abbrev texts : Texts
texts = record { text_of = λ n. "n"; first_200 = λ s. s; partition = λ s. (s, "") }

abbrev daily : BudgetScope
daily = record { scope_type = "agent_daily"; scope_id = "agent-1" }

abbrev budgets : Budgets numbered
budgets = record {
  reservations =
      record {
        reservation_id = "bres-1";
        workspace_id = "w-1";
        scope = daily;
        work_item_id = none;
        estimated_cost_units = 300;
        status = reserved;
        created_at = 1000;
        settled_cost_units = none;
        settled_at = none;
      }
      ∷ [];
  usage =
      record {
        agent_id = some "agent-1";
        task_id = none;
        run_id = none;
        channel_id = none;
        cost_units = 200;
        reported_at = 500;
      }
      ∷ [];
  events = 0;
}

abbrev wanted : Request texts numbered
wanted = record {
  workspace_id = "w-1";
  actor_account_id = "acct-1";
  scope = daily;
  work_item_id = some "wi-1";
  correlation_id = "c-1";
  idempotency_key = none;
  run_ids = none;
  fresh_hex = "f";
  fresh_id = "bres-2";
}

abbrev clock : Readings
clock = record { for_used = 2000; for_reserved = 2000; to_write = 2000 }

try_reserve-Fits_example :
    After
      (Fits texts numbered wanted clock (pos 1000) (pos 400) budgets)
      (try_reserve texts numbered wanted clock (pos 1000) (pos 400) budgets)
try_reserve-Fits_example = try_reserve-Fits texts numbered wanted clock (pos 1000) (pos 400) budgets
