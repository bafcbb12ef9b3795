-- ===== src/Work/State/Samples.antt =====
-- Timing, transitions and the result ledger of server/work/state.py on concrete inputs.
use agent_colab.Prelude.{
  str_eq, length, ok, suc, String, ◌≡◌, refl, true, false, none, some, [], ◌∷◌,
}
use agent_colab.Work.State.{
  delivered, redeliver_, ack_timeout_redelivery, TimingDecision, next_action, ResultLedger,
  result_of, accept,
}
use agent_colab.Work.State.Timing.{IsTimed, IsTimely, next_action-IsTimely}
use agent_colab.Work.State.Ledger.{accept_once}

abbrev redelivery : TimingDecision
redelivery = record {
  action = redeliver_;
  reason = ack_timeout_redelivery 3;
  due_at = some 160000000;
}

-- Delivered for the third time at 100 s, and still not acknowledged 60 s later.
next_action-IsTimely_example :
    (d : TimingDecision) × (next_action delivered
        (some 100000000)
        none
        160000000
        3
        "invoke"
        none
        0
        (some 900000000)
      ≡ ok d)
    × IsTimely delivered (some 100000000) none 160000000 3 "invoke" none 0 (some 900000000) d
unfolding IsTimed
next_action-IsTimely_example =
    next_action-IsTimely delivered (some 100000000) none 160000000 3 "invoke" none 0
      (some 900000000) refl

abbrev one_result : ResultLedger
one_result = record { results = ("wi-1", "ref-1") ∷ []; audit = [] }

accept_once_example :
    ((existing : String)
      → result_of one_result "wi-1" ≡ some existing
      → (let r = accept one_result "wi-1" "ref-2" "agent-1" in
          (r.0.accepted ≡ false)
          × (r.0.first_result_ref ≡ existing)
          × (r.1.results ≡ one_result.results)
          × (length r.1.audit ≡ suc (length one_result.audit))))
    × (result_of one_result "wi-1" ≡ none
        → (let r = accept one_result "wi-1" "ref-2" "agent-1" in
            (r.0.accepted ≡ true)
            × (result_of r.1 "wi-1" ≡ some "ref-2")
            × (r.1.audit ≡ one_result.audit)
            × ((other : String)
                → str_eq "wi-1" other ≡ false
                → result_of r.1 other ≡ result_of one_result other)))
accept_once_example = accept_once one_result "wi-1" "ref-2" "agent-1"
