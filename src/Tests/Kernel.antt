-- ===== src/Tests/Kernel.antt =====
-- Tests of the scheduler and of messages.
use jix.Base.{ℕ, ◌≤◌, ◌<◌, ◌≡◌, refl, ◌≢◌, ◌⊎◌, some, arith, pos}
use jix.Kernel.State.{from, recving, Kernel, nproc, task_idle, set_proc}
use jix.Kernel.Proc.{schedule}
use jix.Kernel.Pick.{IsServed, IsReady}
use jix.Kernel.Schedule.{IsChoice, refilled, schedule-IsChoice}
use jix.Kernel.Msg.{send_walk, sendmsg, recvmsg, done, blocked, dead_lock, as_sender}
use jix.Kernel.WaitGraph.{
  waiting, IsIdle, IsAcyclic, NoCycle, Leaves, Ends, sendmsg-IsAcyclic, waiting,
}
use jix.Kernel.RecvDeadLock.{RecvReaches, next, recvmsg-dead_lock}
use jix.Kernel.DeadLock.{sendmsg-dead_lock}
use jix.Kernel.Rendezvous.{switch_to, received, IsDelivered, sendmsg-recvmsg, recvmsg-sendmsg}
use jix.Tests.Data.{table, machine}

table-others : (j : ℕ) → j < nproc → j ≢ task_idle → IsReady (table j) → 1 < (table j).priority
table-others j lt ne on = ground arith

table-IsServed : IsServed table
table-IsServed = record {
  idle_ready = refl;
  idle_counter = refl;
  idle_priority = refl;
  others = table-others;
}

schedule-IsChoice_example :
    (k' : Kernel) × (schedule machine ≡ some k')
    × IsChoice k'.ptable k'.current
    × ((k'.ptable ≡ table) ⊎ (k'.ptable ≡ refilled table))
schedule-IsChoice_example = schedule-IsChoice machine table-IsServed

-- Process 1 sends the message at 500 to process 2, which receives it at 900.
sendmsg-recvmsg_example :
    (k1 k2 : Kernel) × (sendmsg 64 500 2 (switch_to 1 machine) ≡ blocked k1)
    × (recvmsg 64 900 (from 1) (switch_to 2 k1) ≡ received (machine.mem 500) k2)
    × IsDelivered machine.mem k2 500 900 1
sendmsg-recvmsg_example = sendmsg-recvmsg machine 1 2 500 900 64 (omega arith) refl refl

recvmsg-sendmsg_example :
    (k1 k2 : Kernel) × (recvmsg 64 900 (from 1) (switch_to 2 machine) ≡ blocked k1)
    × (sendmsg 64 500 2 (switch_to 1 k1) ≡ done (pos 0) k2)
    × IsDelivered machine.mem k2 500 900 2
recvmsg-sendmsg_example = recvmsg-sendmsg machine 1 2 500 900 64 (omega arith) refl refl

-- Process 2 waits to send the message at 500 to process 1, which runs.
abbrev sender_waits : Kernel
sender_waits = set_proc machine 2 (as_sender 500 1 (table 2))

table-NoCycle : NoCycle table
table-NoCycle i = Ends.stop (idle i)
  where
    idle : (i : ℕ) → IsIdle (table i)
    idle i = ground arith

sendmsg-IsAcyclic_example : (n : ℕ) × ((f : ℕ) → n ≤ f → Leaves IsAcyclic (sendmsg f 500 2 machine))
sendmsg-IsAcyclic_example = sendmsg-IsAcyclic 500 2 machine (omega arith) table-NoCycle

-- Process 1 would send to process 2, which waits to send to it.
sender_waits-dead_lock : sendmsg 64 500 2 sender_waits ≡ dead_lock
unfolding sendmsg send_walk
sender_waits-dead_lock = refl

sendmsg-dead_lock_example : ¬ IsAcyclic (waiting 500 2 sender_waits)
sendmsg-dead_lock_example = sendmsg-dead_lock 64 500 2 sender_waits refl sender_waits-dead_lock

-- Process 1 would receive from process 2, which waits to receive from it.
abbrev receiver_waits : Kernel
receiver_waits = set_proc machine 2 (record (table 2) { state = recving; recvfrom = from 1 })

recvmsg-dead_lock_example :
    ((f : ℕ)
      → recvmsg f 900 (from 2) receiver_waits ≡ dead_lock
      → RecvReaches receiver_waits 1 (from 2))
    × (RecvReaches receiver_waits 1 (from 2)
        → (n : ℕ) × ((f : ℕ) → n ≤ f → recvmsg f 900 (from 2) receiver_waits ≡ dead_lock))
recvmsg-dead_lock_example = recvmsg-dead_lock 900 (from 2) receiver_waits

receiver_waits-RecvReaches : RecvReaches receiver_waits 1 (from 2)
receiver_waits-RecvReaches = next refl refl
