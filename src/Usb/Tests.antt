-- ===== src/Usb/Tests.antt =====
-- Runs of package usb, and its theorems at concrete data.
use busylib_go.Prelude.{
  ℕ, ◌+◌, ◌≤◌, ◌≡◌, ◌⊎◌, refl, true, false, List, [], ◌∷◌, length, take, arith,
}
use busylib_go.Prelude.Bytes.{bytes, bytes_eq}
use busylib_go.Usb.Command.{
  Text, trim_space, trim_left, is_space, any_of, breaks_line, join_with, build_command,
}
use busylib_go.Usb.Command.Line.{AreArguments, IsName, build_command_lem}
use busylib_go.Usb.Telnet.{strip_iac}
use busylib_go.Usb.Telnet.Items.{
  Item, text, option, command, block, wire, strip_iac-wire, strip_iac-unclosed,
}
use busylib_go.Usb.Prompt.{
  has_suffix, trailing_bytes, contains_prompt, ReadResult, prompt_found, read_until_prompt,
}
use busylib_go.Usb.Prompt.Found.{joined, Describes, read_until_prompt-IsRun}
use busylib_go.Usb.Session.{Session, responded, sends, step, send_line}
use busylib_go.Usb.Session.Steps.{IsStep, step-IsStep}
use busylib_go.Usb.Streaming.{Turn, stream_output, completed, streaming}
use busylib_go.Usb.Streaming.Whole.{
  whole_from, plain_turn, stream_output-whole_from, stream_output_misses_prompt,
}

-- " ls " with the argument "/ext"
abbrev padded : Text
padded = 32 ∷ 108 ∷ 115 ∷ 32 ∷ []

abbrev folder : List Text
folder = (47 ∷ 101 ∷ 120 ∷ 116 ∷ []) ∷ []

build_command_lem_example :
    (IsName (trim_space padded) × AreArguments folder)
      × (build_command padded folder ≡ (join_with (trim_space padded) folder, true))
      × (any_of breaks_line (build_command padded folder).0 ≡ false)
    ⊎ ¬ (IsName (trim_space padded) × AreArguments folder)
      × ((build_command padded folder).1 ≡ false)
build_command_lem_example = build_command_lem padded folder

run_of_padded : build_command padded folder ≡ (bytes "ls /ext", true)
unfolding build_command trim_space any_of trim_left is_space
run_of_padded = refl

abbrev negotiated : List Item
negotiated =
    option 253 1 ∷ text 62 ∷ text 255 ∷ block (24 ∷ 1 ∷ []) ∷ command 241 ∷ text 58 ∷ text 32 ∷ []

strip_iac-wire_example : strip_iac (wire negotiated) ≡ 62 ∷ 255 ∷ 58 ∷ 32 ∷ []
strip_iac-wire_example = strip_iac-wire negotiated (omega arith)

abbrev two_reads : List ReadResult
two_reads =
    record { chunk = 97 ∷ 62 ∷ []; failed = false }
    ∷ record { chunk = 58 ∷ 32 ∷ []; failed = false }
    ∷ []

run_of_reads : read_until_prompt two_reads 100 ≡ (97 ∷ 62 ∷ 58 ∷ 32 ∷ [], prompt_found)
unfolding read_until_prompt contains_prompt strip_iac has_suffix bytes_eq
run_of_reads = refl

read_until_prompt-IsRun_example :
    (n : ℕ) × ((read_until_prompt two_reads 100).0 ≡ joined (take n two_reads))
    × (length (read_until_prompt two_reads 100).0 ≤ 100 + 4096)
    × Describes 100 two_reads
        (read_until_prompt two_reads 100).0
        (read_until_prompt two_reads 100).1
read_until_prompt-IsRun_example = read_until_prompt-IsRun 100 two_reads (omega arith)

abbrev two_turns : List Turn
two_turns = plain_turn (97 ∷ 62 ∷ []) ∷ plain_turn (58 ∷ 32 ∷ []) ∷ []

run_of_turns : stream_output two_turns ≡ (97 ∷ 62 ∷ 58 ∷ 32 ∷ [], completed)
unfolding stream_output trailing_bytes contains_prompt strip_iac has_suffix bytes_eq
run_of_turns = refl

stream_output-whole_from_example : stream_output two_turns ≡ whole_from two_turns []
stream_output-whole_from_example = stream_output-whole_from two_turns (
  (refl, refl, refl, (omega arith, (omega arith, tt))),
  ((refl, refl, refl, (omega arith, (omega arith, tt))), tt),
)

stream_output_misses_prompt_example :
    (contains_prompt (62 ∷ 255 ∷ 253 ∷ 1 ∷ 58 ∷ 32 ∷ []) ≡ true)
    × (stream_output (plain_turn (62 ∷ 255 ∷ 253 ∷ 1 ∷ []) ∷ plain_turn (58 ∷ 32 ∷ []) ∷ [])
        ≡ (62 ∷ 255 ∷ 253 ∷ 1 ∷ 58 ∷ 32 ∷ [], streaming))
stream_output_misses_prompt_example =
    stream_output_misses_prompt 253 1 (omega arith) (omega arith) (omega arith) (omega arith)

abbrev fresh_session : Session
fresh_session = record { closed = false; sent = [] }

run_of_step :
    step 100 (sends padded folder false two_reads) fresh_session
    ≡ (record { closed = false; sent = bytes "ls /ext" ∷ [] }, responded (97 ∷ 62 ∷ 58 ∷ 32 ∷ []))
unfolding step send_line build_command trim_space any_of trim_left is_space read_until_prompt
    contains_prompt strip_iac has_suffix bytes_eq
run_of_step = refl

step-IsStep_example :
    IsStep 100 fresh_session (step 100 (sends padded folder false two_reads) fresh_session)
step-IsStep_example =
    step-IsStep 100 (sends padded folder false two_reads) fresh_session (omega arith)

strip_iac-unclosed_example : strip_iac (255 ∷ 250 ∷ 24 ∷ 1 ∷ 7 ∷ []) ≡ 7 ∷ []
strip_iac-unclosed_example = strip_iac-unclosed (24 ∷ 1 ∷ []) 7 (omega arith) (omega arith)
