-- ===== src/Usb/Streaming/Whole.antt =====
-- The loop of usb/session.go's streamLine looks for the prompt in the new chunk and the two bytes
-- before it. That finds it where the whole output would show it, if the output is plain text.
use busylib_go.Prelude.{
  ℕ, ◌-◌, ◌≤◌, ◌≡◌, ◌≢◌, ◌⊎◌, refl, ◌∙◌, sym, ap, true, false, List, [], ◌∷◌, ◌++◌, append_assoc,
  append-nil, leb, if◌then◌else◌, length, length-append, length-drop, take, take-append-drop, All,
  All-append, All-drop, Bool-cases, inl, inr, arith,
}
use busylib_go.Prelude.Bytes.{Bytes, bytes_eq}
use busylib_go.Usb.Telnet.Items.{text, option, strip_iac-plain, strip_iac-wire}
use busylib_go.Usb.Prompt.{prompt, has_suffix, contains_prompt, trailing_bytes, is_empty}
use busylib_go.Usb.Prompt.Found.{has_suffix-append, is_empty-nil}
use busylib_go.Usb.Streaming.{Turn, StreamEnd, completed, streaming, stream_from, stream_output}

-- The reference: the prompt is looked for in all of the output so far.
pub whole_from : List Turn → Bytes → Bytes × StreamEnd
whole_from [] seen = (seen, streaming)
whole_from (t ∷ turns) seen =
    let further = whole_from turns (seen ++ t.chunk) in
    if is_empty t.chunk
    then further
    else if contains_prompt (seen ++ t.chunk)
    then (seen ++ t.chunk, completed)
    else further

-- A turn in which nothing fails and the device sends plain text.
abbrev pub IsPlain : Turn → Type 0
IsPlain t =
    (t.cancelled ≡ false)
    × (t.read_failed ≡ false)
    × (t.written ≡ true)
    × All (λ b. b ≢ 255) t.chunk

-- The tail is the end of what was seen, and all of it while it is shorter than two bytes.
abbrev IsTail : Bytes → Bytes → Type 0
IsTail tail seen = (front : Bytes) × (seen ≡ front ++ tail) × ((length tail ≡ 2) ⊎ (front ≡ []))

contains_prompt-plain :
    (bs : Bytes) → All (λ b. b ≢ 255) bs → contains_prompt bs ≡ has_suffix bs prompt
unfolding contains_prompt
contains_prompt-plain bs h = rw (strip_iac-plain bs h)

trailing_bytes-IsTail : (bs : Bytes) → IsTail (trailing_bytes bs 2) bs
unfolding trailing_bytes
trailing_bytes-IsTail bs = elim (Bool-cases (leb (length bs) 2)) [
  | inl short ↦ rw short ([], refl, inr refl)
  | inr long ↦ rw long (
    take (length bs - 2) bs,
    sym (take-append-drop (length bs - 2) bs),
    inl (ground (arith, length-drop (length bs - 2) bs)),
  )
]

length-trailing_bytes : (bs : Bytes) → length (trailing_bytes bs 2) ≤ 2
unfolding trailing_bytes
length-trailing_bytes bs = ground (arith, length-drop (length bs - 2) bs)

nonempty : (bs : Bytes) → is_empty bs ≡ false → 1 ≤ length bs
nonempty [] h = cc
nonempty (b ∷ bs) h = omega arith

-- The test on the tail and the chunk is the test on everything.
has_suffix-tail :
    (tail seen chunk : Bytes)
    → IsTail tail seen
    → is_empty chunk ≡ false
    → has_suffix (seen ++ chunk) prompt ≡ has_suffix (tail ++ chunk) prompt
has_suffix-tail tail seen chunk (front, same, inr nothing) full =
    ap (λ t. has_suffix (t ++ chunk) prompt) (same ∙ ap (λ t. t ++ tail) nothing)
has_suffix-tail tail seen chunk (front, same, inl two) full =
    ap (λ t. has_suffix (t ++ chunk) prompt) same
    ∙ ap (λ t. has_suffix t prompt) (append_assoc front tail chunk)
    ∙ has_suffix-append front (tail ++ chunk) prompt
        (omega (arith, length-append tail chunk, nonempty chunk full))

still_tail :
    (front more tail chunk kept : Bytes)
    → tail ++ chunk ≡ more ++ kept
    → (length tail ≡ 2) ⊎ (front ≡ [])
    → (length kept ≡ 2) ⊎ (more ≡ [])
    → length kept ≤ 2
    → (length kept ≡ 2) ⊎ (front ++ more ≡ [])
still_tail front more tail chunk kept split kind (inl two) room = inl two
still_tail front more tail chunk kept split (inr none_before) (inr none_more) room =
    inr (ap (λ t. t ++ more) none_before ∙ none_more)
still_tail front more tail chunk kept split (inl two) (inr none_more) room =
    inl (omega (arith, length-append tail chunk, ap length (split ∙ ap (λ t. t ++ kept) none_more)))

IsTail-append :
    (tail seen chunk : Bytes)
    → IsTail tail seen
    → IsTail (trailing_bytes (tail ++ chunk) 2) (seen ++ chunk)
IsTail-append tail seen chunk (front, same, kind) =
    let (more, split, ends) = trailing_bytes-IsTail (tail ++ chunk) in
    let kept = trailing_bytes (tail ++ chunk) 2 in
    (
      front ++ more,
      ap (λ t. t ++ chunk) same
          ∙ append_assoc front tail chunk
          ∙ ap (λ t. front ++ t) split
          ∙ sym (append_assoc front more kept),
      still_tail front more tail chunk kept split kind ends (length-trailing_bytes (tail ++ chunk)),
    )

trailing_bytes-All : (P : ℕ → Type 0) (bs : Bytes) → All P bs → All P (trailing_bytes bs 2)
unfolding trailing_bytes
trailing_bytes-All P bs h = elim (Bool-cases (leb (length bs) 2)) [
  | inl short ↦ rw short h
  | inr long ↦ rw long (All-drop P (length bs - 2) bs h)
]

abbrev pub plain_turn : Bytes → Turn
plain_turn chunk = record {
  cancelled = false;
  chunk = chunk;
  read_failed = false;
  written = true;
  cancelled_reading = false;
}

-- One plain turn of both loops, from the same output.
stream_from-whole_from :
    (turns : List Turn) (tail seen : Bytes)
    → All IsPlain turns
    → All (λ b. b ≢ 255) seen
    → All (λ b. b ≢ 255) tail
    → IsTail tail seen
    → stream_from turns tail seen ≡ whole_from turns seen
unfolding stream_from whole_from
stream_from-whole_from [] tail seen plain clean clean_tail is_tail = refl
stream_from-whole_from (t ∷ turns) tail seen ((live, healthy, taken, letters), plain) clean
      clean_tail is_tail =
    elim (Bool-cases (is_empty t.chunk)) [
      | inl nothing ↦
          let same : seen ++ t.chunk ≡ seen =
            ap (λ c. seen ++ c) (is_empty-nil t.chunk nothing) ∙ append-nil seen in
          rw (live, nothing, healthy, same)
            (stream_from-whole_from turns tail seen plain clean clean_tail is_tail)
      | inr something ↦
          let whole = All-append (λ b. b ≢ 255) seen t.chunk letters clean in
          let near = All-append (λ b. b ≢ 255) tail t.chunk letters clean_tail in
          let agree : contains_prompt (tail ++ t.chunk) ≡ contains_prompt (seen ++ t.chunk) =
            contains_prompt-plain (tail ++ t.chunk) near
            ∙ sym (has_suffix-tail tail seen t.chunk is_tail something)
            ∙ sym (contains_prompt-plain (seen ++ t.chunk) whole) in
          let rest =
            stream_from-whole_from turns (trailing_bytes (tail ++ t.chunk) 2) (seen ++ t.chunk)
              plain whole (trailing_bytes-All (λ b. b ≢ 255) (tail ++ t.chunk) near)
              (IsTail-append tail seen t.chunk is_tail) in
          rw (live, something, taken, healthy, agree, rest)
    ]

-- Where no turn fails and the device sends plain text, the loop copies and ends exactly as the loop
-- that looks for the prompt in all of the output: it misses no prompt and sees none too early.
pub stream_output-whole_from :
    (turns : List Turn) → All IsPlain turns → stream_output turns ≡ whole_from turns []
unfolding stream_output
stream_output-whole_from turns plain =
    stream_from-whole_from turns [] [] plain tt tt ([], refl, inr refl)

module _ (c o : ℕ) (lo : 251 ≤ c) (hi : c ≤ 254) where
  prompt_through_option : contains_prompt (62 ∷ 255 ∷ c ∷ o ∷ 58 ∷ 32 ∷ []) ≡ true
  unfolding contains_prompt has_suffix bytes_eq
  prompt_through_option =
      rw (strip_iac-wire (text 62 ∷ option c o ∷ text 58 ∷ text 32 ∷ []) (omega arith))

  no_prompt_before_option : contains_prompt (62 ∷ 255 ∷ c ∷ o ∷ []) ≡ false
  unfolding contains_prompt has_suffix
  no_prompt_before_option = rw (strip_iac-wire (text 62 ∷ option c o ∷ []) (omega arith))

  no_prompt_after_option : o ≢ 255 → o ≢ 62 → contains_prompt (c ∷ o ∷ 58 ∷ 32 ∷ []) ≡ false
  unfolding has_suffix bytes_eq
  no_prompt_after_option n m =
      contains_prompt-plain (c ∷ o ∷ 58 ∷ 32 ∷ []) (omega arith) ∙ ground arith

-- With negotiation in the output it can miss a prompt: of a prompt that an option splits, where the
-- read ends behind the option, the loop keeps only the option's last two bytes. Then it waits on,
-- though all of the output ends in the prompt. The option's code is not 255 nor the code of `>`.
pub stream_output_misses_prompt :
    (c o : ℕ)
    → 251 ≤ c
    → c ≤ 254
    → o ≢ 255
    → o ≢ 62
    → (contains_prompt (62 ∷ 255 ∷ c ∷ o ∷ 58 ∷ 32 ∷ []) ≡ true)
      × (stream_output (plain_turn (62 ∷ 255 ∷ c ∷ o ∷ []) ∷ plain_turn (58 ∷ 32 ∷ []) ∷ [])
          ≡ (62 ∷ 255 ∷ c ∷ o ∷ 58 ∷ 32 ∷ [], streaming))
unfolding stream_output trailing_bytes
stream_output_misses_prompt c o lo hi n m = (
  prompt_through_option c o lo hi,
  rw (no_prompt_before_option c o lo hi, no_prompt_after_option c o lo hi n m),
)
