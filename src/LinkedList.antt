-- ===== src/LinkedList.antt =====
-- pkg/utils/list/list.go: the doubly linked list of the queues.
pub mod Sequence
