-- ===== src/Usb/Telnet.antt =====
-- usb/protocol.go, stripIAC: removes the telnet negotiation from what the device sends.
-- The index into the data is the rest of the data that it leaves.
pub mod Items
use mathlib.Core.WellFounded.{Acc}
use busylib_go.Prelude.{
  ℕ, ◌≤◌, Bool, true, false, ◌&&◌, ◌||◌, not, List, [], ◌∷◌, leb, ◌==◌, if◌then◌else◌, length,
  arith, Shorter, drop-Shorter, shorter_acc,
}
use busylib_go.Prelude.Bytes.{Bytes}

-- `for index+1 < len(data) && (data[index] != 255 || data[index+1] != 240) { index++ }`, and the
-- two bytes after it where the loop has found them.
pub skip_subnegotiation : Bytes → Bytes
skip_subnegotiation [] = []
skip_subnegotiation (b ∷ []) = b ∷ []
skip_subnegotiation (b ∷ c ∷ rest) =
    let further = skip_subnegotiation (c ∷ rest) in if b == 255 && c == 240 then rest else further

length-skip_subnegotiation : (bs : Bytes) → length (skip_subnegotiation bs) ≤ length bs
unfolding skip_subnegotiation
length-skip_subnegotiation [] = omega arith
length-skip_subnegotiation (b ∷ []) = omega arith
length-skip_subnegotiation (b ∷ c ∷ rest) = ground (arith, length-skip_subnegotiation (c ∷ rest))

pub skip-Shorter : (b c : ℕ) (rest : Bytes) → Shorter (skip_subnegotiation rest) (b ∷ c ∷ rest)
skip-Shorter b c rest = omega (arith, length-skip_subnegotiation rest)

-- The clauses tell how many bytes are left: an IAC that ends the data is dropped, and so is one
-- that waits for its option.
strip_from : (bs : Bytes) → Acc Shorter bs → Bytes
strip_from [] _ = []
strip_from (b ∷ []) _ = if not (b == 255) then b ∷ [] else []
strip_from (b ∷ c ∷ []) (Acc.intro _ shorter) =
    let after_text = strip_from (c ∷ []) (shorter _ (drop-Shorter 0 b (c ∷ []))) in
    if not (b == 255) then b ∷ after_text else if c == 255 then 255 ∷ [] else []
strip_from (b ∷ c ∷ d ∷ rest) (Acc.intro _ shorter) =
    let after_text = strip_from (c ∷ d ∷ rest) (shorter _ (drop-Shorter 0 b (c ∷ d ∷ rest))) in
    let after_pair = strip_from (d ∷ rest) (shorter _ (drop-Shorter 1 b (c ∷ d ∷ rest))) in
    let after_option = strip_from rest (shorter _ (drop-Shorter 2 b (c ∷ d ∷ rest))) in
    let after_block =
      strip_from (skip_subnegotiation (d ∷ rest)) (shorter _ (skip-Shorter b c (d ∷ rest))) in
    if not (b == 255)
    then b ∷ after_text
    else if c == 255
    then 255 ∷ after_pair
    else if leb 251 c && leb c 254
    then after_option
    else if c == 250
    then after_block
    else after_pair

unfoldable pub strip_iac : Bytes → Bytes
unfolding strip_from shorter_acc skip_subnegotiation
strip_iac data_bytes = strip_from data_bytes (shorter_acc data_bytes)
