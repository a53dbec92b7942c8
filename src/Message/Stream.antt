-- ===== src/Message/Stream.antt =====
-- `MessageStream` of Core/Protocol/MessageStream.hpp and MessageStream.cpp.
use ziqe.Prelude.{ℕ, ◌+◌, ◌*◌, ◌/◌, ◌%◌}

-- A 16-bit number with its two bytes exchanged.
abbrev pub swapped : ℕ → ℕ
swapped v = v % 256 * 256 + v / 256
