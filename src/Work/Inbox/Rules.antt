-- ===== src/Work/Inbox/Rules.antt =====
-- server/work/inbox.py: rules for what holds after the helpers that an operation is made of.
use agent_colab.Prelude.Transactions.{◌>>=◌, pure, raise, lift, After, After-bind}
use agent_colab.Prelude.{
  if◌then◌else◌, str_eq, Result, ok, err, String, ◌≡◌, refl, sym, subst, Bool, true, false, Option,
  none, some,
}
use agent_colab.Events.Store.{Payload, EventStoreError, AppendResult}
use agent_colab.Work.State.{WorkItemError, work_item_not_found, work_item_not_owner, store_error}
use agent_colab.Work.Inbox.Rows.{
  WorkItem, Outside, Db, find_item, Step, load, require_owner, append,
}

module _ (x : Outside) {B : Type 0} (Q : B → Db x → Type 0) where
  pub after_load :
      (f : WorkItem → Step x B) (work_item_id : String) (db : Db x)
      → ((item : WorkItem) → find_item work_item_id db.items ≡ some item → After Q (f item db))
      → After Q ((load x work_item_id >>= f) db)
  unfolding load
  after_load f work_item_id db k =
      After-bind Q (λ item db'. (db' ≡ db) × (find_item work_item_id db.items ≡ some item))
        (load x work_item_id) f db (found (find_item work_item_id db.items) refl)
        (λ item db' r. subst (λ d. After Q (f item d)) (sym r.0) (k item r.1))
    where
      found :
          (o : Option WorkItem)
          → find_item work_item_id db.items ≡ o
          → After {S = Db x} {E = WorkItemError} {A = WorkItem}
              (λ item db'. (db' ≡ db) × (find_item work_item_id db.items ≡ some item))
              (elim o [ some item ↦ ok (item, db) | none ↦ err work_item_not_found ])
      found none e = tt
      found (some item) e = (refl, e)

  pub after_owner :
      (f : Unit {0} → Step x B) (item : WorkItem) (agent_id : String) (db : Db x)
      → After Q (f tt db)
      → After Q ((require_owner x item agent_id >>= f) db)
  unfolding require_owner
  after_owner f item agent_id db k = go (str_eq item.agent_id agent_id)
    where
      go : (b : Bool) → After Q (((if b then pure tt else raise work_item_not_owner) >>= f) db)
      go true = k
      go false = tt

  pub after_lift :
      {A : Type 0} (f : A → Step x B) (r : Result WorkItemError A) (db : Db x)
      → ((a : A) → r ≡ ok a → After Q (f a db))
      → After Q ((lift r >>= f) db)
  after_lift f (ok a) db k = k a refl
  after_lift f (err e) db k = tt

  pub after_append :
      (f : AppendResult → Step x B) (item : WorkItem) (type actor operation key : String)
      (payload : Payload) (caused_by : Option String) (db : Db x)
      → ((a : AppendResult) (events : x.store.State)
          → After Q (f a (record db { events = events })))
      → After Q ((append x item type actor operation key payload caused_by >>= f) db)
  unfolding append
  after_append f item type actor operation key payload caused_by db k =
      After-bind Q (λ a db'. (events : x.store.State) × (db' ≡ record db { events = events }))
        (append x item type actor operation key payload caused_by) f db (appended _)
        (λ a db' r. subst (λ d. After Q (f a d)) (sym r.1) (k a r.0))
    where
      appended :
          (r : Result EventStoreError (AppendResult × x.store.State))
          → After {S = Db x} {E = WorkItemError} {A = AppendResult}
              (λ a db'. (events : x.store.State) × (db' ≡ record db { events = events }))
              (elim r [
                | ok (a, events) ↦ ok (a, record db { events = events })
                | err e ↦ err (store_error e)
              ])
      appended (ok (a, events)) = (events, refl)
      appended (err e) = tt
