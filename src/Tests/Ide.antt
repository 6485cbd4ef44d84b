-- ===== src/Tests/Ide.antt =====
-- Tests of the queue of requests to the disk.
use jix.Base.{◌≡◌, refl, false, none, some, [], ◌∷◌, arith, ◌==◌, if◌then◌else◌}
use jix.Fs.Cache.{Buf}
use jix.Fs.Ide.{Ide, iderw}
use jix.Fs.IdeQueue.{IsQueue, iderw-IsQueue}

abbrev stale : Buf
stale = record { valid = false; dirty = false; dev = some 0; sector = 7; bytes = λ o. 1 }

-- Buffers 3 and 5 wait, and the controller reads for 3.
abbrev two_wait : Ide
two_wait = record {
  idequeue = some 3;
  qnext = λ b. if b == 3 then some 5 else none;
  buf = λ b. stale;
  disk = λ dev n o. 9;
  started = some 3;
}

two_wait-IsQueue : IsQueue two_wait (3 ∷ 5 ∷ [])
two_wait-IsQueue = record { chain = (refl, (refl, refl)); distinct = ((omega arith, tt), (tt, tt)) }

iderw-IsQueue_example :
    (s' : Ide) × (iderw 1 2 8 two_wait ≡ some (false, s'))
    × IsQueue s' (3 ∷ 5 ∷ 8 ∷ [])
    × (s'.started ≡ some 3)
iderw-IsQueue_example =
    iderw-IsQueue 1 2 8 two_wait (3 ∷ 5 ∷ []) two_wait-IsQueue (omega arith, (omega arith, tt)) refl
      refl (omega arith)
