-- ===== src/Kernel/MsgType.antt =====
-- `enum MSGTYPE` of include/msg.h: the requests to the file system and to the memory manager.
use jix.Base.{ℕ}

abbrev pub open_ : ℕ
open_ = 4

abbrev pub close : ℕ
close = 5

abbrev pub read : ℕ
read = 6

abbrev pub write : ℕ
write = 7

abbrev pub chdir : ℕ
chdir = 8

abbrev pub dup : ℕ
dup = 9

abbrev pub link : ℕ
link = 10

abbrev pub unlink : ℕ
unlink = 11

abbrev pub mkdir : ℕ
mkdir = 12

abbrev pub mknod : ℕ
mknod = 13

abbrev pub pipe : ℕ
pipe = 14

abbrev pub stat : ℕ
stat = 15

abbrev pub seek : ℕ
seek = 16

abbrev pub gotoxy : ℕ
gotoxy = 17

abbrev pub ttymode : ℕ
ttymode = 18

abbrev pub cls : ℕ
cls = 19

abbrev pub ttycolor : ℕ
ttycolor = 20

abbrev pub fork : ℕ
fork = 21

abbrev pub exec : ℕ
exec = 22

abbrev pub exit : ℕ
exit = 23

abbrev pub wait : ℕ
wait = 24

abbrev pub sbrk : ℕ
sbrk = 25
