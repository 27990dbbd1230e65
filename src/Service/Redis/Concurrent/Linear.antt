-- ===== src/Service/Redis/Concurrent/Linear.antt =====
-- Concurrent requests to the Redis service behave as if each command were carried out at once.
use database_router.Text.{Text}
use database_router.Driver.{Driver}
use database_router.Manager.{Manager}
