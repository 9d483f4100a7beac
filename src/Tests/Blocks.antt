-- ===== src/Tests/Blocks.antt =====
-- native/: blocks of memory that the tests share.
use proc.Base.{◌==◌, ltb, if◌then◌else◌, arith}
use proc.Memory.{Buffer, IsBytes}

abbrev pub ones : Buffer
ones = λ _. 1

abbrev pub threes : Buffer
threes = λ _. 3

pub ones-IsBytes : IsBytes ones
ones-IsBytes i = omega arith

pub threes-IsBytes : IsBytes threes
threes-IsBytes i = omega arith

-- A request for the path "aaaaa".
abbrev pub request : Buffer
request = λ i. if ltb i 232 then 1 else if ltb i 237 then 0 else if i == 237 then 5 else b'a'

-- A source stage of protocol v1.
abbrev pub stage : Buffer
stage =
    λ i. if i == 0 then 0 else if i == 2 then 0 else if i == 3 then 0 else if ltb i 82 then 1 else 0
