-- ===== src/Examples/Notices.antt =====
-- An outbox of two notifications, and the theorems on its delivery and its readers.
use itp2_group6_the_pond.Prelude.{
  ◌⊎◌, ◌≡◌, refl, true, false, none, some, [], ◌∷◌, codes, All, count, filter, find?, update_first,
  arith,
}
use itp2_group6_the_pond.Notices.{
  Notification, Outbox, pending, sent, inbox, unread_count, mark_read, is_own, is_visible, is_sent,
  deliver_pending, has_notification, batch, by_availability, insert_due, is_due, is_before,
  delivered, deliver_all, result_of, is_positive, may_read, is_reachable,
}
use itp2_group6_the_pond.Notices.Privacy.{mark_read-inbox, mark_read-mark_read}
use itp2_group6_the_pond.Notices.Delivery.{IsBounded, IsKeyed, deliver_pending-IsBounded}
use itp2_group6_the_pond.Examples.Data.{users}

-- To Ada, sent.
abbrev old : Notification
old = record {
  notification_id = 1;
  submission_id = 9;
  recipient_user_id = 1;
  event_type = codes "ready_for_review";
  message = codes "Ready";
  status = sent;
  attempt_count = 1;
  available_at = 5;
  lease_token = none;
  lease_expires_at = none;
  sent_at = some 6;
  read_at = none;
  has_error = false;
}

-- To Bob, not sent yet.
abbrev new : Notification
new = record old {
  notification_id = 2;
  recipient_user_id = 2;
  status = pending;
  attempt_count = 0;
  sent_at = none;
}

abbrev outbox : Outbox
outbox = old ∷ new ∷ []

abbrev after_delivery : Outbox
after_delivery = old ∷ record new { status = sent; attempt_count = 1; sent_at = some 10 } ∷ []

outbox-IsKeyed : IsKeyed outbox
unfolding IsKeyed count
outbox-IsKeyed id = ground arith

deliver_pending-IsBounded_example :
    All (IsBounded 3) after_delivery
    × All
        (λ row.
          (is_due 10 row ≡ true)
          ⊎ (find? (has_notification row.notification_id) after_delivery ≡ some row))
        outbox
unfolding find? deliver_pending batch by_availability insert_due is_due is_before delivered
    deliver_all result_of is_positive is_reachable filter count is_sent update_first
deliver_pending-IsBounded_example =
    deliver_pending-IsBounded 3 100 users 10 outbox after_delivery
      (record { sent_count = 1; failed_count = 0 }) outbox-IsKeyed (omega arith, (omega arith, tt))
      refl

abbrev after_reading : Outbox
after_reading = record old { read_at = some 20 } ∷ new ∷ []

mark_read-inbox_example :
    (inbox users 2 50 none false after_reading ≡ inbox users 2 50 none false outbox)
    × (unread_count users 2 after_reading ≡ unread_count users 2 outbox)
unfolding mark_read is_positive may_read is_reachable find? is_own is_visible is_sent update_first
mark_read-inbox_example =
    mark_read-inbox users 1 1 20 outbox true after_reading 2 50 none false refl refl

mark_read-mark_read_example : mark_read users 1 1 30 after_reading ≡ some (true, after_reading)
unfolding mark_read is_positive may_read is_reachable find? is_own is_visible is_sent update_first
mark_read-mark_read_example = mark_read-mark_read users 1 1 20 30 outbox true after_reading refl
