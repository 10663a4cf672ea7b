-- ===== src/Outreach/Responses.antt =====
-- The Creator's answer to a delivery (backend/app/outreach/responses.py).
--
-- A digest is looked up by equality, and `hmac.compare_digest` on two texts is equality again. The
-- rows that `confirm_response` reads again under its locks are those of the same tables.
use find_me_gamer.Prelude.{
  Bool, not, ◌&&◌, Option, none, some, List, [], ◌∷◌, ◌++◌, String, ◌==◌, is_none, str_eq,
  if◌then◌else◌, find, update,
}
use find_me_gamer.Result.{value_error, Result, ok, ◌>>◌, raise_if}
use find_me_gamer.Match.Model.{Uuid, Timestamp}
use find_me_gamer.Outreach.Model.{
  ResponseState, Delivery, CampaignCreatorResponse, OutreachTables, is_sent, is_no_response,
  is_final, has_id,
}

pub data ConfirmationKind : Type 0 where
  not_found inactive final confirm : ConfirmationKind

pub record ResponseConfirmation : Type 0 where
  pub kind : ConfirmationKind
  pub state : Option ResponseState
  pub accepted_label : String
  pub declined_label : String

-- A confirmation with the labels' defaults.
abbrev pub bare : ConfirmationKind → Option ResponseState → ResponseConfirmation
bare kind state = record { kind = kind; state = state; accepted_label = ""; declined_label = "" }

abbrev pub has_digest : String → Delivery → Bool
has_digest digest row = str_eq row.response_token_digest digest

abbrev pub of_creator : Uuid → CampaignCreatorResponse → Bool
of_creator creator_id row = row.creator_id == creator_id

unfoldable pub delivery_for_digest : String → OutreachTables → Option Delivery
delivery_for_digest digest t = find (has_digest digest) t.deliveries

abbrev pub keep_final : Option CampaignCreatorResponse → Option CampaignCreatorResponse
keep_final none = none
keep_final (some row) = if is_final row.state then some row else none

-- `_final_response`
unfoldable pub final_response : Uuid → OutreachTables → Option CampaignCreatorResponse
final_response creator_id t = keep_final (find (of_creator creator_id) t.responses)

-- `_is_eligible`
unfoldable pub is_eligible : Delivery → Bool
is_eligible row =
    is_none row.superseded_at && is_sent row.send_state && is_no_response row.response_state

-- `_view`
unfoldable pub view : Delivery → Option CampaignCreatorResponse → ResponseConfirmation
unfolding is_eligible
view row (some response) = bare final (some response.state)
view row none = if not (is_eligible row) then bare inactive none else record {
  kind = confirm;
  state = none;
  accepted_label = row.content.accepted_label;
  declined_label = row.content.declined_label;
}

unfoldable pub show_response_confirmation : String → OutreachTables → ResponseConfirmation
unfolding delivery_for_digest view final_response
show_response_confirmation digest t = elim (delivery_for_digest digest t) [
  | none ↦ bare not_found none
  | some row ↦ view row (final_response row.creator_id t)
]

unfoldable pub answered : ResponseState → Timestamp → Delivery → Delivery
answered choice now row = record row { response_state = choice; responded_at = some now }

unfoldable pub answer :
    Delivery → ResponseState → Timestamp → CampaignCreatorResponse → CampaignCreatorResponse
answer delivery choice now row = record row {
  state = choice;
  final_delivery_id = some delivery.id;
  responded_at = some now;
}

-- The Creator's response row: the one that is there, or a new one.
unfoldable pub record_answer :
    Delivery
    → ResponseState
    → Timestamp
    → Option CampaignCreatorResponse
    → List CampaignCreatorResponse
    → List CampaignCreatorResponse
unfolding answer
record_answer delivery choice now none rows =
    rows
    ++ (record {
      creator_id = delivery.creator_id;
      state = choice;
      final_delivery_id = some delivery.id;
      responded_at = some now;
    }
        ∷ [])
record_answer delivery choice now (some response) rows =
    update (of_creator delivery.creator_id) (answer delivery choice now) rows

unfoldable pub confirm_tables :
    Delivery → ResponseState → Timestamp → OutreachTables → OutreachTables
unfolding record_answer answered
confirm_tables delivery choice now t = record t {
  responses =
      record_answer delivery choice now (find (of_creator delivery.creator_id) t.responses)
        t.responses;
  deliveries = update (has_id delivery.id) (answered choice now) t.deliveries;
}

unfoldable pub confirm_open :
    Delivery
    → ResponseState
    → Timestamp
    → Option CampaignCreatorResponse
    → OutreachTables
    → ResponseConfirmation × OutreachTables
unfolding is_eligible confirm_tables
confirm_open delivery choice now (some response) t = (bare final (some response.state), t)
confirm_open delivery choice now none t =
    if not (is_eligible delivery)
    then (bare inactive none, t)
    else (bare final (some choice), confirm_tables delivery choice now t)

unfoldable pub confirm_row :
    String
    → ResponseState
    → Timestamp
    → Option Delivery
    → OutreachTables
    → ResponseConfirmation × OutreachTables
unfolding final_response confirm_open
confirm_row digest choice now none t = (bare not_found none, t)
confirm_row digest choice now (some delivery) t =
    if not (str_eq digest delivery.response_token_digest)
    then (bare not_found none, t)
    else confirm_open delivery choice now (final_response delivery.creator_id t) t

unfoldable pub confirm_located :
    String
    → ResponseState
    → Timestamp
    → Option Delivery
    → OutreachTables
    → ResponseConfirmation × OutreachTables
unfolding confirm_row
confirm_located digest choice now none t = (bare not_found none, t)
confirm_located digest choice now (some located) t =
    if not t.has_campaign
    then (bare not_found none, t)
    else confirm_row digest choice now (find (has_id located.id) t.deliveries) t

unfoldable pub confirm_response :
    String
    → ResponseState
    → Timestamp
    → OutreachTables
    → Result (ResponseConfirmation × OutreachTables)
unfolding delivery_for_digest confirm_located
confirm_response digest choice now t = do
  raise_if (not (is_final choice)) value_error
  ok (confirm_located digest choice now (delivery_for_digest digest t) t)
