-- ===== src/Outreach/Constraints.antt =====
-- The CHECK constraints on a delivery (backend/app/db/models/outreach.py), but those on the order of
-- timestamps and on texts.
use find_me_gamer.Prelude.{Bool, not, ◌&&◌, ◌||◌, is_some, is_none, bool_eq}
use find_me_gamer.Outreach.Model.{
  Delivery, is_queued, is_sending, is_sent, is_failed, is_no_response, is_final,
}

-- ck_deliveries_smtp_error_shape
unfoldable pub smtp_error_check : Delivery → Bool
smtp_error_check row =
    bool_eq (is_none row.smtp_error_code) (is_none row.smtp_error_message)
    && (is_failed row.send_state || (is_none row.smtp_error_code && not row.smtp_retryable))

-- ck_deliveries_send_state_shape
unfoldable pub send_state_check : Delivery → Bool
send_state_check row =
    (is_queued row.send_state
      && is_none row.sending_at
      && is_none row.sent_at
      && is_none row.failed_at)
    || (is_sending row.send_state
        && is_some row.sending_at
        && is_none row.sent_at
        && is_none row.failed_at)
    || (is_sent row.send_state
        && is_some row.sending_at
        && is_some row.sent_at
        && is_none row.failed_at)
    || (is_failed row.send_state
        && is_some row.sending_at
        && is_none row.sent_at
        && is_some row.failed_at)

-- ck_deliveries_response_state_shape, and the last line of ck_deliveries_timestamp_shape.
unfoldable pub response_state_check : Delivery → Bool
response_state_check row =
    ((is_no_response row.response_state && is_none row.responded_at)
      || (is_final row.response_state && is_some row.responded_at))
    && (is_none row.superseded_at || is_no_response row.response_state)

unfoldable pub delivery_check : Delivery → Bool
unfolding smtp_error_check send_state_check response_state_check
delivery_check row = smtp_error_check row && send_state_check row && response_state_check row
