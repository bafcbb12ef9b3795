-- ===== src/Work/State/Ledger.antt =====
-- server/work/state.py: `ResultLedger` over one report.
use agent_colab.Prelude.{
  str_eq, str_eq_refl, length, length-append, suc, String, ◌≡◌, refl, true, false, none, some, List,
  [], ◌∷◌, ◌++◌, arith,
}
use agent_colab.Work.State.{LedgerAudit, ResultLedger, find, result_of, settle, accept}

find-eq :
    (key value : String) (rest : List (String × String))
    → find key ((key, value) ∷ rest) ≡ some value
unfolding find
find-eq key value rest = rw (str_eq_refl key) refl

find-other :
    (key other value : String) (rest : List (String × String))
    → str_eq other key ≡ false
    → find key ((other, value) ∷ rest) ≡ find key rest
unfolding find
find-other key other value rest h = rw h refl

-- Whatever is reported, in whatever order: once a work item has a result, a report changes no result,
-- answers with the first one, and adds one audit entry; the first report of a work item is its result,
-- adds no audit entry, and leaves the results of the other work items.
pub accept_once :
    (ledger : ResultLedger) (work_item_id result_ref reporter : String)
    → ((existing : String)
        → result_of ledger work_item_id ≡ some existing
        → (let r = accept ledger work_item_id result_ref reporter in
            (r.0.accepted ≡ false)
            × (r.0.first_result_ref ≡ existing)
            × (r.1.results ≡ ledger.results)
            × (length r.1.audit ≡ suc (length ledger.audit))))
      × (result_of ledger work_item_id ≡ none
          → (let r = accept ledger work_item_id result_ref reporter in
              (r.0.accepted ≡ true)
              × (result_of r.1 work_item_id ≡ some result_ref)
              × (r.1.audit ≡ ledger.audit)
              × ((other : String)
                  → str_eq work_item_id other ≡ false
                  → result_of r.1 other ≡ result_of ledger other)))
unfolding accept result_of settle
accept_once ledger work_item_id result_ref reporter = (again, first)
  where
    audited : (xs : List LedgerAudit) (x : LedgerAudit) → length (xs ++ x ∷ []) ≡ suc (length xs)
    audited xs x = omega (arith, length-append xs (x ∷ []))

    again :
        (existing : String)
        → find work_item_id ledger.results ≡ some existing
        → (let r =
              settle (find work_item_id ledger.results) work_item_id result_ref reporter ledger in
            (r.0.accepted ≡ false)
            × (r.0.first_result_ref ≡ existing)
            × (r.1.results ≡ ledger.results)
            × (length r.1.audit ≡ suc (length ledger.audit)))
    again existing h = rw h (refl, refl, refl, audited ledger.audit _)

    first :
        find work_item_id ledger.results ≡ none
        → (let r =
              settle (find work_item_id ledger.results) work_item_id result_ref reporter ledger in
            (r.0.accepted ≡ true)
            × (find work_item_id r.1.results ≡ some result_ref)
            × (r.1.audit ≡ ledger.audit)
            × ((other : String)
                → str_eq work_item_id other ≡ false
                → find other r.1.results ≡ find other ledger.results))
    first h = rw h (
      refl,
      find-eq work_item_id result_ref ledger.results,
      refl,
      λ other h. find-other other work_item_id result_ref ledger.results h,
    )
