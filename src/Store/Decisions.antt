-- ===== src/Store/Decisions.antt =====
-- The statements on `pull_decisions`.
use ribat.Base.{
  ℕ, suc, Bool, true, false, List, [], ◌∷◌, ◌++◌, map, ltb, if◌then◌else◌, length, sort_by, Text,
  codes, ltb_ℤ,
}
use ribat.Time.{unix}
use ribat.Store.Rows.{DecisionRecord, DecisionRow, scan_decision_row, Table}
use ribat.Store.World.{Act, call, change, gets, ◌>>◌}

unfoldable pub insert_decision : DecisionRecord → Table DecisionRow → Table DecisionRow
insert_decision r t =
    let row : DecisionRow = record {
      id = suc t.seq;
      timestamp = unix r.timestamp;
      image_ref = r.image_ref;
      registry = r.registry;
      repository = r.repository;
      tag = r.tag;
      digest = r.digest;
      decision = r.decision;
      reason = r.reason;
      client_user = r.client_user;
      request_method = r.request_method;
      request_uri = r.request_uri;
    } in
    record { rows = t.rows ++ row ∷ []; seq = suc t.seq }

unfoldable pub record_decision : DecisionRecord → Act Text (Unit {0})
unfolding insert_decision
record_decision r = do
  call (codes "record decision: ")
  change (λ db. record db { pull_decisions = insert_decision r db.pull_decisions })

unfoldable pub count_decisions : Act Text ℕ
count_decisions = do call (codes "count decisions: "); gets (λ w. length w.db.pull_decisions.rows)

-- `ORDER BY timestamp ASC, id ASC`.
pub earlier_decision : DecisionRow → DecisionRow → Bool
earlier_decision r s =
    if ltb_ℤ r.timestamp s.timestamp
    then true
    else if ltb_ℤ s.timestamp r.timestamp
    then false
    else ltb r.id s.id

unfoldable pub list_decisions : Act Text (List DecisionRecord)
unfolding earlier_decision
list_decisions = do
  call (codes "list decisions: ")
  gets (λ w. map scan_decision_row (sort_by earlier_decision w.db.pull_decisions.rows))
