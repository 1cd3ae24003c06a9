-- ===== src/Notification.antt =====
-- Notifications (apps/backend/src/notification/notification.service.ts: userOrder, adminIssue and
-- their safe versions). The texts are constants of the callers and are left out.
use lucky_draw.Common.{ℕ, Option, none, [], ◌∷◌, ◌++◌}
use lucky_draw.Model.{Db, MessageType, Target}

-- A user's notification carries the user only where the caller gives one.
unfoldable pub notify_user : Option ℕ → ℕ → MessageType → Db → Db
notify_user user order message db = record db {
  notifications =
      db.notifications
      ++ record {
        user_id = user;
        order_id = order;
        target_type = Target.user;
        message_type = message;
      }
        ∷ [];
}

unfoldable pub notify_admin : ℕ → Db → Db
notify_admin order db = record db {
  notifications =
      db.notifications
      ++ record {
        user_id = none;
        order_id = order;
        target_type = Target.admin;
        message_type = MessageType.issue_occurred;
      }
        ∷ [];
}
