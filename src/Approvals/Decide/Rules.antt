-- ===== src/Approvals/Decide/Rules.antt =====
-- The rules of the statements that server/approvals/service.py repeats.
use agent_colab.Prelude.Transactions.{◌>>=◌, lift, After, After-bind, After-bind_lift}
use agent_colab.Prelude.{Result, ok, err, String, ◌≡◌, refl, sym, subst, Option, none, some}
use agent_colab.Events.Store.{Payload, EventStoreError, AppendResult, EventStore}
use agent_colab.Approvals.Decide.{
  DecisionError, approval_not_found, approval_error, File, Step, load_grant, append,
}
use agent_colab.Approvals.Model.{store_error, Grant}

module _ (store : EventStore) {B : Type 0} (Q : B → File store → Type 0) where
  pub after_lift :
      {A : Type 0} (r : Result DecisionError A) (f : A → Step store B) (file : File store)
      → ((a : A) → r ≡ ok a → After Q (f a file))
      → After Q ((lift r >>= f) file)
  after_lift r f file k = After-bind_lift Q r f file k

  pub after_load :
      (f : Grant → Step store B) (file : File store)
      → ((grant : Grant) → file.grant ≡ some grant → After Q (f grant file))
      → After Q ((load_grant store >>= f) file)
  unfolding load_grant
  after_load f file k =
      After-bind Q (λ grant s. (s ≡ file) × (file.grant ≡ some grant)) (load_grant store) f file
        (found file.grant refl)
        (λ grant s r. subst (λ d. After Q (f grant d)) (sym r.0) (k grant r.1))
    where
      found :
          (o : Option Grant)
          → file.grant ≡ o
          → After {S = File store} {E = DecisionError} {A = Grant}
              (λ grant s. (s ≡ file) × (file.grant ≡ some grant))
              (elim o [ some grant ↦ ok (grant, file) | none ↦ err approval_not_found ])
      found none e = tt
      found (some grant) e = (refl, e)

  pub after_append :
      (grant : Grant) (event_type actor correlation_id scope key : String) (payload : Payload)
      (f : AppendResult → Step store B) (file : File store)
      → ((appended : AppendResult) (events : store.State)
          → After Q (f appended (record file { events = events })))
      → After Q ((append store grant event_type actor correlation_id scope key payload >>= f) file)
  unfolding append
  after_append grant event_type actor correlation_id scope key payload f file k =
      After-bind Q (λ _ s. (events : store.State) × (s ≡ record file { events = events }))
        (append store grant event_type actor correlation_id scope key payload) f file (stored _)
        (λ appended s r. subst (λ d. After Q (f appended d)) (sym r.1) (k appended r.0))
    where
      stored :
          (r : Result EventStoreError (AppendResult × store.State))
          → After {S = File store} {E = DecisionError} {A = AppendResult}
              (λ _ s. (events : store.State) × (s ≡ record file { events = events }))
              (elim r [
                | ok (appended, events) ↦ ok (appended, record file { events = events })
                | err e ↦ err (approval_error (store_error e))
              ])
      stored (ok (appended, events)) = (events, refl)
      stored (err e) = tt
