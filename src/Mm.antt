-- ===== src/Mm.antt =====
-- The memory manager: mm/.
pub mod Pages
pub mod FreeList
pub mod Vm
pub mod Space
pub mod Uvm
pub mod Load
pub mod Bytes
pub mod ArgBlock
pub mod Exec
pub mod ExecArgs
pub mod Serve
pub mod Life
pub mod Exit
pub mod Wait
