-- ===== src/Util.antt =====
-- src/util and include/sched/checked.h: checked arithmetic, the binary heap and the ring buffer.
pub mod Bits
pub mod Checked
pub mod Heap
pub mod Ring
