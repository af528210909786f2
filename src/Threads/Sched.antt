-- ===== src/Threads/Sched.antt =====
-- `thread_init`, `thread_id`, `thread_create`, `thread_yield`, `thread_exit` and `thread_kill`.
pub mod Create
pub mod Ready
pub mod Yield
pub mod Leave
unfoldable pub use operating_systems_lab.Threads.Sched.Create.{
  init_loop, thread_init, thread_id, find_slot, stack_top, link_tail, fill_head, enqueue_new,
  create_in, slot_found, thread_create,
}
unfoldable pub use operating_systems_lab.Threads.Sched.Ready.{append_ready, find_ready, unlink}
pub use operating_systems_lab.Threads.Sched.Ready.{Search, found, absent, endless}
unfoldable pub use operating_systems_lab.Threads.Sched.Yield.{
  rotate_ready, yield_any, take_ready, yield_found, yield_to, yield_from, thread_yield,
}
unfoldable pub use operating_systems_lab.Threads.Sched.Leave.{
  exit_to, thread_exit, free_memory, free_stack, fix_tail, kill_found, kill_tid, thread_kill,
  resume_at, resume, stub_end, thread_stub_end,
}
pub use operating_systems_lab.Threads.Sched.Leave.{Resumed, goes_on, runs}
