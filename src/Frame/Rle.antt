-- ===== src/Frame/Rle.antt =====
-- frame/frame.go, decodeRLE: the firmware's run-length coding.
-- The index into the source is the rest of the source that it leaves. The loop recurs on the
-- rest's length, since each round drops the opcode and what it covers.

pub mod Blocks
mod Tests
use mathlib.Core.WellFounded.{Acc}
use busylib_go.Prelude.{
  ℕ, zero, suc, ◌+◌, ◌-◌, ◌*◌, ◌/◌, ◌%◌, Bool, true, false, List, [], ◌∷◌, ◌++◌, Result, ok, err,
  ltb, ◌==◌, not, if◌then◌else◌, length, take, drop, Shorter, drop-Shorter, shorter_acc,
}
use busylib_go.Prelude.Bytes.{Bytes}
use busylib_go.Frame.Types.{Cause, invalid_frame}

-- `for range blockCount { result = append(result, block...) }`
unfoldable pub repeat_block : ℕ → Bytes → Bytes
repeat_block zero block = []
repeat_block (suc n) block = block ++ repeat_block n block

-- `opcode & 0x7f`, and `opcode & 0x80 != 0`
abbrev pub block_count : ℕ → ℕ
block_count opcode = opcode % 128

abbrev pub is_literal : ℕ → Bool
is_literal opcode = not (opcode / 128 % 2 == 0)

decode_rle_from :
    (expected_size block_size : ℕ) (source : Bytes)
    → Acc Shorter source
    → (result : Bytes) → Result Cause Bytes
decode_rle_from expected_size block_size [] _ result =
    if length result == expected_size then ok result else err invalid_frame
decode_rle_from expected_size block_size (opcode ∷ rest) (Acc.intro _ shorter) result =
    let byte_count = block_count opcode * block_size in
    let after_literal =
      decode_rle_from expected_size block_size (drop byte_count rest)
        (shorter _ (drop-Shorter byte_count opcode rest)) (result ++ take byte_count rest) in
    let after_repeat =
      decode_rle_from expected_size block_size (drop block_size rest)
        (shorter _ (drop-Shorter block_size opcode rest))
        (result ++ repeat_block (block_count opcode) (take block_size rest)) in
    if block_count opcode == 0
    then err invalid_frame
    else if ltb (expected_size - length result) byte_count
    then err invalid_frame
    else if is_literal opcode
    then (if ltb (length rest) byte_count then err invalid_frame else after_literal)
    else if ltb (length rest) block_size
    then err invalid_frame
    else after_repeat

unfoldable pub decode_rle : Bytes → ℕ → ℕ → Result Cause Bytes
unfolding decode_rle_from shorter_acc repeat_block
decode_rle source expected_size block_size =
    decode_rle_from expected_size block_size source (shorter_acc source) []
