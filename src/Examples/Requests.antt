-- ===== src/Examples/Requests.antt =====
-- A request of a data subject at src/modules/rights: submitted, then rejected.
use dpdpos_backend.Prelude.{none, some, [], ◌∷◌, List, literal, undefined}
use dpdpos_backend.Database.ListTable.{list_table}
use dpdpos_backend.Database.Rows.{get}
use dpdpos_backend.Rights.Lifecycle.{access, rejected}
use dpdpos_backend.Rights.Types.{CreateDataSubjectRequestDto, UpdateDataSubjectRequestDto}
use dpdpos_backend.Rights.Resolution.{
  RequestOp, submitting, updating_request, AllWellClosed, perform_all, perform_all-AllWellClosed,
}
use dpdpos_backend.Examples.Services.{lists, officer, morning, noon, start}

abbrev access_request : CreateDataSubjectRequestDto
access_request = record {
  request_type = access;
  requester_reference = literal "customer 7";
  assigned_to = none;
  immediate_erase = none;
  cooling_off_days = none;
}

abbrev rejection : UpdateDataSubjectRequestDto
rejection = record {
  version = 1;
  assigned_to = undefined;
  status = some rejected;
  resolution_summary = undefined;
}

abbrev day : List RequestOp
day =
    submitting morning officer access_request ∷ updating_request noon officer "new-1" rejection ∷ []

start-AllWellClosed : AllWellClosed lists start
unfolding list_table get
start-AllWellClosed k r e = cc e

perform_all-AllWellClosed_example : AllWellClosed lists (perform_all lists day start)
perform_all-AllWellClosed_example = perform_all-AllWellClosed lists day start start-AllWellClosed
