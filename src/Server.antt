-- ===== src/Server.antt =====
-- webserver/server_thread.c: the buffer of requests between the main thread and the workers, and the
-- cache of files; webserver/request.c: the requests.
pub mod Buffer
pub mod Ring
pub mod Fifo
pub mod Cache
pub mod Request
pub mod Serve
pub mod Tests
