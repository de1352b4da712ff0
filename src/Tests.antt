-- ===== src/Tests.antt =====
-- Runs at concrete states of the code of pthreads/ and server/.
mod Setup
mod Queues
mod Threads
mod Locks
mod Sockets
mod Pools
mod Programs
mod Files
mod Runs
mod Sorting
mod Counting
mod Service
