-- ===== src/Tests/Pipes.antt =====
-- native/proc17_qa_launcher_v1.c: the machine at concrete inputs.
use proc.Base.{◌+◌, ◌≡◌, refl, [], ◌∷◌}
use proc.Launcher.{Expectation, fresh, learn_length, turn, feed_loop, feed_public_bytes}
use proc.Launcher.Chunks.{fresh-Waits, feed_public_bytes-chunks}
use proc.Launcher.Order.{IsSound, fresh-IsSound, feed_all, feed_all-Sound}
use proc.Memory.{at, zeroed}
use proc.Tests.Blocks.{ones}
use proc.Wire.Integers.{get_u32}

-- A source of which all numbers are made of ones.
abbrev pub expected : Expectation
expected = record {
  identity = ones;
  source_device = 0x0101010101010101;
  source_inode = 0x0101010101010101;
  source_mount_id = 0x0101010101010101;
  source_mount_policy_flags = 0x01010101;
}

feed_public_bytes-chunks_example :
    feed_public_bytes expected (feed_public_bytes expected fresh zeroed 20).0 (at zeroed 20) 30
    ≡ feed_public_bytes expected fresh zeroed (20 + 30)
unfolding feed_public_bytes feed_loop turn learn_length get_u32
feed_public_bytes-chunks_example =
    feed_public_bytes-chunks expected fresh zeroed 20 30 fresh-Waits refl

feed_all-Sound_example : IsSound expected (feed_all expected fresh zeroed (20 ∷ 70 ∷ 5 ∷ []))
feed_all-Sound_example =
    feed_all-Sound expected fresh zeroed (20 ∷ 70 ∷ 5 ∷ []) (fresh-IsSound expected)
