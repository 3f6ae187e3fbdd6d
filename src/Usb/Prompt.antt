-- ===== src/Usb/Prompt.antt =====
-- usb/protocol.go, containsPrompt, trailingBytes and readUntilPrompt.
-- The reader is a script: what each call of Read returns. A script that ends stands for a Read that
-- has not returned yet.
pub mod Found
use busylib_go.Prelude.{
  ℕ, zero, suc, ◌-◌, Bool, true, false, List, [], ◌∷◌, ◌++◌, Option, none, some, ltb, leb, ◌==◌,
  if◌then◌else◌, length, drop,
}
use busylib_go.Prelude.Bytes.{Bytes, bytes, bytes_eq}
use busylib_go.Usb.Telnet.{strip_iac}

abbrev pub prompt : Bytes
prompt = bytes ">: "

-- bytes.HasSuffix
unfoldable pub has_suffix : Bytes → Bytes → Bool
has_suffix bs suffix =
    if ltb (length bs) (length suffix)
    then false
    else bytes_eq (drop (length bs - length suffix) bs) suffix

unfoldable pub contains_prompt : Bytes → Bool
contains_prompt bs = has_suffix (strip_iac bs) prompt

-- The count of the program is not negative.
unfoldable pub trailing_bytes : Bytes → ℕ → Bytes
trailing_bytes bs count =
    if count == 0 then [] else if leb (length bs) count then bs else drop (length bs - count) bs

-- What one Read returns: bytes, perhaps none, and perhaps an error.
pub record ReadResult : Type 0 where
  pub chunk : Bytes
  pub failed : Bool

pub data ReadOutcome : Type 0 where
  prompt_found response_too_large prompt_not_found still_waiting : ReadOutcome

-- `len(data) > 0` is the test `count > 0`.
abbrev pub is_empty : Bytes → Bool
is_empty [] = true
is_empty (_ ∷ _) = false

read_from : List ReadResult → ℕ → Bytes → Bytes × ReadOutcome
read_from [] maximum result = (result, still_waiting)
read_from (r ∷ reads) maximum result =
    let grown = result ++ r.chunk in
    let continue = if r.failed then (grown, prompt_not_found) else read_from reads maximum grown in
    if is_empty r.chunk
    then continue
    else if ltb maximum (length grown)
    then (grown, response_too_large)
    else if contains_prompt grown
    then (grown, prompt_found)
    else continue

unfoldable pub read_until_prompt : List ReadResult → ℕ → Bytes × ReadOutcome
unfolding read_from
read_until_prompt reads maximum = read_from reads maximum []
