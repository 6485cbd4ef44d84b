-- ===== src/Tests/Clib.antt =====
-- Tests of the string functions.
use jix.Base.{◌≡◌, refl, some, ◌==◌, if◌then◌else◌}
use jix.Clib.Mem.{Memory}
use jix.Clib.Str.{strlen, strlen_from}

-- "ab" at 100, and NUL everywhere else.
abbrev text : Memory
text a = if a == 100 then 97 else if a == 101 then 98 else 0

text_length : strlen 5 100 text ≡ some 2
unfolding strlen strlen_from
text_length = refl
