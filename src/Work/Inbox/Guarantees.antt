-- ===== src/Work/Inbox/Guarantees.antt =====
-- server/work/inbox.py and timeouts.py: every sequence of operations other than `poll`, on the rows of
-- `work_items`.
use agent_colab.Work.Inbox.Steps.{ack, start, reject, cancel, expire, requeue_for_redelivery}
use agent_colab.Work.Inbox.Delivery.{NewWorkItem, enqueue}
use agent_colab.Work.Inbox.Results.{result}
use agent_colab.Work.Inbox.Sweep.{sweep}
use agent_colab.Prelude.Transactions.{After}
use agent_colab.Prelude.{All, Result, ok, err, ℕ, String, ◌≡◌, true, Option, some, List, [], ◌∷◌}
use agent_colab.Work.State.{WorkItemError, is_terminal}
use agent_colab.Work.Inbox.Rows.{WorkItem, WorkResult, Outside, Db, find_item}
use agent_colab.Work.Inbox.Moves.{IsTimedItem, Moves, none_moved, both, Moves-frozen, Moves-timed}
use agent_colab.Work.Inbox.Commands.{
  Moved, cancel-Moves, expire-Moves, requeue-Moves, reject-Moves, ack-Moves, start-Moves,
}
use agent_colab.Work.Inbox.ResultMoves.{result-Moves}
use agent_colab.Work.Inbox.OtherMoves.{enqueue-Moves, sweep-Moves}

-- The operations of the inbox that do not deliver, with their arguments.
pub data Command : Type 0 where
  enqueue_ : NewWorkItem → String → ℕ → Command
  ack_ start_ : String → String → String → ℕ → Command
  reject_ : String → String → String → String → ℕ → Command
  cancel_ expire_item : String → String → String → ℕ → Command
  requeue_ : String → ℕ → Command
  result_ : String → String → WorkResult → String → ℕ → ℕ → Command
  sweep_ : String → ℕ → (String → ℕ) → Option String → Option String → Command

-- The rows after the transaction of a command: a command that raises is rolled back.
rows_after : {x : Outside} {A : Type 0} → Db x → Result WorkItemError (A × Db x) → Db x
rows_after db (ok (_, db')) = db'
rows_after db (err e) = db

pub run : (x : Outside) → Command → Db x → Db x
unfolding rows_after
run x (enqueue_ new fresh now) db = rows_after db (enqueue x new fresh now db)
run x (ack_ w a p now) db = rows_after db (ack x w a p now db)
run x (start_ w a p now) db = rows_after db (start x w a p now db)
run x (reject_ w a r p now) db = rows_after db (reject x w a r p now db)
run x (cancel_ w r p now) db = rows_after db (cancel x w r p now db)
run x (expire_item w r p now) db = rows_after db (expire x w r p now db)
run x (requeue_ w now) db = rows_after db (requeue_for_redelivery x w now db)
run x (result_ w a body p acked_now now) db = rows_after db (result x w a body p acked_now now db)
run x (sweep_ p now counts agent workspace) db =
    rows_after db (sweep x p now counts agent workspace db)

pub run_all : (x : Outside) → List Command → Db x → Db x
run_all x [] db = db
run_all x (c ∷ cs) db = run_all x cs (run x c db)

module _ (x : Outside) where
  moved_after :
      {A : Type 0} (db : Db x) (r : Result WorkItemError (A × Db x))
      → After (Moved x db) r
      → Moves db.items (rows_after db r).items
  unfolding rows_after
  moved_after db (ok (a, db')) m = m
  moved_after db (err e) m = none_moved

  run-Moves : (c : Command) (db : Db x) → Moves db.items (run x c db).items
  unfolding run
  run-Moves (enqueue_ new fresh now) db = moved_after db _ (enqueue-Moves x new fresh now db)
  run-Moves (ack_ w a p now) db = moved_after db _ (ack-Moves x w a p now db)
  run-Moves (start_ w a p now) db = moved_after db _ (start-Moves x w a p now db)
  run-Moves (reject_ w a r p now) db = moved_after db _ (reject-Moves x w a r p now db)
  run-Moves (cancel_ w r p now) db = moved_after db _ (cancel-Moves x w r p now db)
  run-Moves (expire_item w r p now) db = moved_after db _ (expire-Moves x w r p now db)
  run-Moves (requeue_ w now) db = moved_after db _ (requeue-Moves x w now db)
  run-Moves (result_ w a body p acked_now now) db =
      moved_after db _ (result-Moves x w a body p acked_now now db)
  run-Moves (sweep_ p now counts agent workspace) db =
      moved_after db _ (sweep-Moves x p now counts agent workspace db)

  run_all-Moves : (cs : List Command) (db : Db x) → Moves db.items (run_all x cs db).items
  unfolding run_all
  run_all-Moves [] db = none_moved
  run_all-Moves (c ∷ cs) db = both (run-Moves c db) (run_all-Moves cs (run x c db))

  -- After any sequence of operations of the inbox other than `poll`, those that raise included, a work
  -- item that was in a terminal state is the row it was, in all its columns.
  pub run_all-frozen :
      (cs : List Command) (db : Db x) (work_item_id : String) (item : WorkItem)
      → find_item work_item_id db.items ≡ some item
      → is_terminal item.status ≡ true
      → find_item work_item_id (run_all x cs db).items ≡ some item
  run_all-frozen cs db work_item_id item h t =
      Moves-frozen (run_all-Moves cs db) work_item_id item h t

  -- After any sequence of operations of the inbox other than `poll`, those that raise included, every
  -- DELIVERED row has its `delivered_at`, and every ACKED or IN_PROGRESS row its `acked_at`, if this held
  -- of the rows before.
  pub run_all-timed :
      (cs : List Command) (db : Db x)
      → All IsTimedItem db.items
      → All IsTimedItem (run_all x cs db).items
  run_all-timed cs db h = Moves-timed (run_all-Moves cs db) h
