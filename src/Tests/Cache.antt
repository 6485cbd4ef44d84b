-- ===== src/Tests/Cache.antt =====
-- Tests of the cache of disk blocks.
use jix.Base.{ℕ, ◌+◌, ◌-◌, ◌≡◌, refl, false, none, some, [], ◌∷◌, arith, ◌==◌, if◌then◌else◌}
use jix.Fs.Cache.{Cache, Buf, brelse, bget}
use jix.Fs.CacheRing.{IsRing}
use jix.Fs.CacheUse.{brelse-front}
use jix.Fs.CacheGet.{cached, retarget, chosen, bget-chosen, bget-bget}

-- Three buffers, of which the second is for sector 9 of device 0.
abbrev buffers : ℕ → Buf
buffers b = record {
  valid = b == 1;
  dirty = false;
  dev = if b == 1 then some 0 else none;
  sector = 9;
  bytes = λ o. 0;
}

abbrev cache : Cache
cache = record {
  buf = buffers;
  next = λ b. if b == 64 then 2 else if b == 0 then 64 else b - 1;
  prev = λ b. if b == 64 then 0 else if b == 2 then 64 else b + 1;
}

cache-IsRing : IsRing cache (2 ∷ 1 ∷ 0 ∷ [])
cache-IsRing = record {
  linked = (refl, refl, (refl, refl, (refl, refl, (refl, refl))));
  distinct = (
    (omega arith, (omega arith, (omega arith, tt))),
    ((omega arith, (omega arith, tt)), ((omega arith, tt), (tt, tt))),
  );
}

brelse-front_example : IsRing (brelse 1 cache) (1 ∷ 2 ∷ 0 ∷ []) × ((brelse 1 cache).buf ≡ cache.buf)
brelse-front_example = brelse-front 1 cache (2 ∷ []) (0 ∷ []) cache-IsRing

bget-chosen_example : bget 0 9 cache ≡ chosen 0 9 cache 0 (cached 0 9 buffers (2 ∷ 1 ∷ 0 ∷ []))
bget-chosen_example = bget-chosen 0 9 cache (2 ∷ 1 ∷ 0 ∷ []) cache-IsRing (omega arith)

bget-bget_example :
    (bget 0 5 cache ≡ (0, retarget 0 5 0 cache))
    × (bget 0 6 (retarget 0 5 0 cache) ≡ (0, retarget 0 6 0 (retarget 0 5 0 cache)))
unfolding cached
bget-bget_example =
    bget-bget 0 5 6 cache (2 ∷ 1 ∷ 0 ∷ []) cache-IsRing (omega arith) (omega arith) refl refl
