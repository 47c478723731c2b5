-- ===== src/Notification.antt =====
-- services/notification-service: the facts of the other services become notifications, which a
-- worker sends and members read.
pub mod Domain
pub mod Router
pub mod Store
pub mod Worker
pub mod Service
