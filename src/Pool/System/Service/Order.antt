-- ===== src/Pool/System/Service/Order.antt =====
-- The tasks of server/threadpool_pthread.c, from `dispatch` to their calls.
use operating_system_linux_t.Common.{List}
