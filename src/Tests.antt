-- ===== src/Tests.antt =====
-- Tests of the models at concrete inputs, by the parts of the program.
mod Data
mod Kernel
mod Mm
mod Life
mod Clib
mod Fs
mod Fd
mod Inode
mod Cache
mod Ide
mod Keyboard
mod User
mod Vm
mod Stdio
mod Copies
mod Grep
