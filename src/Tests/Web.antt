-- ===== src/Tests/Web.antt =====
-- Access, handlers and pages.
use review_service.Prelude.{
  find, Bool, true, false, ℕ, ◌+◌, String, ◌≡◌, refl, Option, none, some, [], ◌∷◌, ℤ, pos, negsuc,
  ◌^◌, ◌-◌, str_eq, if◌then◌else◌,
}
use review_service.Domain.Appraisal.{Uuid}
use review_service.Domain.Errors.{RepoError, err}
use review_service.World.Tables.{Shared}
use review_service.Repository.Statements.{select_page}
use review_service.Http.{respond_json}
use review_service.Handler.{Request}
use review_service.Handler.Bodies.{Decoders, UpdateAppraisalDto, Validator, Field}
use review_service.Handler.Appraisals
use review_service.Handler.Appraisals.Completing.{IsAnswer, complete-IsAnswer}
use review_service.Service
use review_service.Handler.Appraisals.Checking.{
  IsChecked, TakesInput, TakesFilename, TakesContent, body-IsChecked,
}
use review_service.Handler.Paging.{page_offset}
use review_service.Handler.Paging.Bounds.{IsPage, list-IsPage}
use review_service.Middleware.{Verifier, Handler}
use review_service.Middleware.Access.{bearer_claims, caller_of}
use review_service.Middleware.Chain.{IsAdmitted, guard-IsAdmitted}
use review_service.Router.{Route, group_of, Answer, Services, endpoint, dispatch}
use review_service.Router.Access.{IsServed, dispatch-IsServed}
use review_service.Tests.Numbers.{fixed, documents, calculation}
use review_service.Tests.Setup.{faulty, store, row, tables, start}

-- Tokens are role names.
abbrev verifier : Verifier
verifier = record {
  parse_with_claims = λ token. some (record { subject = "42"; roles = token ∷ [] });
  parse_uuid = λ text. some 42;
}

abbrev whoami : Handler (Option Uuid)
whoami ctx w = (respond_json 200 ctx.user_id, w)

guard-IsAdmitted_example :
    IsAdmitted verifier
      ("appraiser" ∷ "admin" ∷ [])
      "Bearer admin"
      whoami
      start
      (caller_of verifier (bearer_claims verifier "Bearer admin"))
guard-IsAdmitted_example =
    guard-IsAdmitted verifier ("appraiser" ∷ "admin" ∷ []) "Bearer admin" whoami start

-- Only a missing value fails.
abbrev is_missing : Field → Bool
is_missing f = elim f.content [ none ↦ true | some text ↦ false ]

abbrev lenient : Validator
lenient = record {
  before_comma = λ text. text;
  struct = λ name fields. elim (find is_missing fields) [
    | none ↦ none
    | some f ↦ some (record {
      text = "invalid";
      failures = some (record { field = name f.json; tag = "required"; param = "" } ∷ []);
    })
  ];
}

abbrev no_change : UpdateAppraisalDto
no_change = record { appraiser_id = none; notes = some "seen"; market_value = none }

abbrev decoders : Decoders
decoders = record {
  parse_uuid = λ text. if str_eq text "7" then some 7 else none;
  validator = lenient;
  update_dto = λ limit text. if str_eq text "{}" then some no_change else none;
  report_dto = λ limit text. some (record { filename = text });
  comparable_dto = λ limit text. some (record { content = some text });
  valid_json = λ text. str_eq text "{}";
}

abbrev no_number : String → Option ℤ
no_number text = none

abbrev request : Request
request = record { url_param = λ name. "7"; query = λ name. ""; body = "{}" }

complete-IsAnswer_example :
    let out = Appraisals.complete faulty store decoders no_number request start in
    IsAnswer faulty (some 7) tables out.0.status out.1.shared
complete-IsAnswer_example =
    complete-IsAnswer faulty store decoders no_number (λ k s. refl) request start

-- The body decodes as each of the three, and is valid.
body-IsChecked_example :
    IsChecked
      (some 7)
      (TakesInput decoders "{}")
      start
      (λ i input. (Service.update faulty i input start).1)
      (Appraisals.update faulty store decoders no_number request start)
    × IsChecked
        (some 7)
        (TakesFilename decoders "{}")
        start
        (λ i filename. (Service.upload_report faulty store i filename start).1)
        (Appraisals.upload_report faulty store decoders no_number request start)
    × IsChecked
        (some 7)
        (TakesContent decoders "{}")
        start
        (λ i content. (Service.add_comparable faulty i content start).1)
        (Appraisals.add_comparable faulty store decoders no_number request start)
body-IsChecked_example = body-IsChecked faulty store decoders no_number request start

-- A table with two rows.
abbrev two_rows : Shared
two_rows = record tables {
  appraisals = row ∷ record row { id = 9; request_id = 4; created_at = 6 } ∷ [];
}

-- The offset of a huge page is negative, and the query is refused.
huge_page_fails :
    (page_offset (2 ^ 57 + 1) 64 ≡ negsuc (2 ^ 63 - 1))
    × (select_page (pos 64) (page_offset (2 ^ 57 + 1) 64) two_rows ≡ err RepoError.driver)
unfolding page_offset select_page
huge_page_fails = (refl, refl)

abbrev services : Services ℕ
services = record {
  env = faulty;
  storage = store;
  decoders = decoders;
  atoi = no_number;
  ops = fixed;
  documents = documents;
  apartment_decoders = record {
    parse_uuid = decoders.parse_uuid;
    config = λ limit text. none;
    input = λ limit text. some calculation;
  };
  swagger_pages = λ ctx w. (respond_json 200 Answer.status_ok, w);
}

dispatch-IsServed_example :
    IsServed verifier "Bearer admin"
      (endpoint services Route.reset_formula_config request)
      start
      (some ("admin" ∷ []))
      (caller_of verifier (bearer_claims verifier "Bearer admin"))
      (dispatch services verifier Route.reset_formula_config "Bearer admin" request start)
unfolding group_of
dispatch-IsServed_example =
    dispatch-IsServed services verifier Route.reset_formula_config "Bearer admin" request start

-- A query with no parameters.
list-IsPage_example : IsPage (Appraisals.list faulty store decoders no_number request start).0
list-IsPage_example = list-IsPage faulty store decoders no_number request start refl refl
