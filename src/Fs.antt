-- ===== src/Fs.antt =====
-- The file system task: fs/.
pub mod Pipe
pub mod Serve
pub mod Block
pub mod Inode
pub mod InodeData
pub mod Dir
pub mod Namei
pub mod Link
pub mod Store
pub mod Cache
pub mod CacheRing
pub mod CacheUse
pub mod CacheGet
pub mod CacheInit
pub mod Ide
pub mod IdeQueue
pub mod Keeps
pub mod Unique
pub mod UniqueData
pub mod UniquePath
pub mod Calls
pub mod Iget
pub mod Bits
pub mod Bitmap
pub mod Balloc
pub mod PathNames
pub mod ReadBounds
pub mod ReadBytes
pub mod Words
pub mod Dinode
pub mod File
pub mod Fd
pub mod FdProc
pub mod Refs
pub mod RefsKept
pub mod RefsClose
pub mod RefsFork
pub mod PipeFifo
pub mod PipeWrite
pub mod PipeRead
pub mod PipeStream
pub mod Tty
pub mod TtyScreen
pub mod TtyInput
pub mod TtyRead
pub mod KeyMap
pub mod Keyboard
pub mod KeyFlags
