-- ===== src/User.antt =====
-- The programs and their library: lib/fs.c, lib/mm.c, lib/stdio.c, and the search of bin/grep.c.
pub mod FsCall
pub mod Transfer
pub mod WriteChunks
pub mod ReadChunks
pub mod Served
pub mod MmCall
pub mod MmServed
pub mod PackedString
pub mod ExecPack
pub mod Stdio
pub mod StdioInput
pub mod StdioSent
pub mod StdioPuts
pub mod StdioGets
pub mod Grep
pub mod GrepSearch
pub mod ServedMoves
pub mod CallServed
