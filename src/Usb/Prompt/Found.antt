-- ===== src/Usb/Prompt/Found.antt =====
-- What readUntilPrompt of usb/protocol.go returns, and when a suffix decides.
use busylib_go.Prelude.{
  ℕ, suc, ◌+◌, ◌-◌, ◌≤◌, ◌<◌, ◌≡◌, refl, subst, ◌∙◌, sym, ap, Bool, true, false, List, [], ◌∷◌,
  ◌++◌, append_assoc, append-nil, ltb, if◌then◌else◌, length, length-append, take, drop-past-append,
  All, Bool-cases, inl, inr, arith,
}
use busylib_go.Prelude.Bytes.{Bytes, bytes_eq}
use busylib_go.Usb.Prompt.{
  has_suffix, contains_prompt, ReadResult, ReadOutcome, prompt_found, response_too_large,
  prompt_not_found, still_waiting, is_empty, read_from, read_until_prompt,
}

-- Whether data end in a suffix shows at any end of the data that is long enough.
pub has_suffix-append :
    (xs ys suffix : Bytes)
    → length suffix ≤ length ys
    → has_suffix (xs ++ ys) suffix ≡ has_suffix ys suffix
unfolding has_suffix
has_suffix-append xs ys suffix h =
    let whole = length-append xs ys in
    let long : ltb (length (xs ++ ys)) (length suffix) ≡ false = ground arith in
    let short : ltb (length ys) (length suffix) ≡ false = ground arith in
    let cut : length (xs ++ ys) - length suffix ≡ length xs + (length ys - length suffix) =
      omega arith in
    rw (long, short, cut)
      (ap (λ t. bytes_eq t suffix)
        (drop-past-append (length xs) (length ys - length suffix) xs ys refl))

abbrev pub joined : List ReadResult → Bytes
joined [] = []
joined (r ∷ reads) = r.chunk ++ joined reads

-- What each outcome says of the result, which starts with what was read before.
abbrev DescribesFrom : ℕ → Bytes → List ReadResult → Bytes → ReadOutcome → Type 0
DescribesFrom maximum before reads result prompt_found =
    (contains_prompt result ≡ true) × (length result ≤ maximum)
DescribesFrom maximum before reads result response_too_large = maximum < length result
DescribesFrom maximum before reads result prompt_not_found = length result ≤ maximum
DescribesFrom maximum before reads result still_waiting =
    (result ≡ before ++ joined reads)
    × (length result ≤ maximum)
    × All (λ r. r.failed ≡ false) reads

abbrev pub Describes : ℕ → List ReadResult → Bytes → ReadOutcome → Type 0
Describes maximum reads result outcome = DescribesFrom maximum [] reads result outcome

-- One read that does not end the loop, in front of reads that are described already.
module _ (maximum : ℕ) (before chunk : Bytes) (reads : List ReadResult) where
  describe_more :
      (r : ReadResult) (result : Bytes) (outcome : ReadOutcome)
      → r.chunk ≡ chunk
      → r.failed ≡ false
      → DescribesFrom maximum (before ++ chunk) reads result outcome
      → DescribesFrom maximum before (r ∷ reads) result outcome
  describe_more r result prompt_found e f d = d
  describe_more r result response_too_large e f d = d
  describe_more r result prompt_not_found e f d = d
  describe_more r result still_waiting e f (same, fits, healthy) =
      (same ∙ (append_assoc before chunk (joined reads) ∙ rw (← e)), fits, (f, healthy))

pub is_empty-nil : (bs : Bytes) → is_empty bs ≡ true → bs ≡ []
is_empty-nil [] h = refl
is_empty-nil (b ∷ bs) h = cc

-- A description of a run: how many reads it took, and what came of them.
abbrev IsRun : ℕ → Bytes → List ReadResult → Bytes × ReadOutcome → Type 0
IsRun maximum before reads (result, outcome) =
    (n : ℕ) × (result ≡ before ++ joined (take n reads))
    × (length result ≤ maximum + 4096)
    × DescribesFrom maximum before reads result outcome

module _ (maximum : ℕ) (r : ReadResult) (reads : List ReadResult) (before : Bytes) where
  last_read :
      (outcome : ReadOutcome)
      → length (before ++ r.chunk) ≤ maximum + 4096
      → DescribesFrom maximum before (r ∷ reads) (before ++ r.chunk) outcome
      → IsRun maximum before (r ∷ reads) (before ++ r.chunk, outcome)
  last_read outcome room d = (1, ap (λ t. before ++ t) (sym (append-nil r.chunk)), room, d)

  further_read :
      length (before ++ r.chunk) ≤ maximum
      → ((run : Bytes × ReadOutcome)
          → run ≡ read_from reads maximum (before ++ r.chunk)
          → IsRun maximum (before ++ r.chunk) reads run)
      → IsRun maximum before (r ∷ reads) (
          if r.failed
          then (before ++ r.chunk, prompt_not_found)
          else read_from reads maximum (before ++ r.chunk))
  further_read room rest =
      let Goal = λ (b : Bool). IsRun maximum before (r ∷ reads) (
        if b
        then (before ++ r.chunk, prompt_not_found)
        else read_from reads maximum (before ++ r.chunk)) in
      elim (Bool-cases r.failed) [
        | inl broken ↦ subst Goal (sym broken) (last_read prompt_not_found (omega arith) room)
        | inr healthy ↦ subst Goal (sym healthy) (
            let (n, same, bounded, d) = rest _ refl in
            (
              suc n,
              same ∙ append_assoc before r.chunk (joined (take n reads)),
              bounded,
              describe_more maximum before r.chunk reads r _ _ refl healthy d,
            ))
      ]

module _ (maximum : ℕ) where
  read_from-IsRun :
      (reads : List ReadResult) (before : Bytes)
      → All (λ r. length r.chunk ≤ 4096) reads
      → length before ≤ maximum
      → IsRun maximum before reads (read_from reads maximum before)
  unfolding read_from
  read_from-IsRun [] before small room =
      (0, sym (append-nil before), omega arith, (sym (append-nil before), room, tt))
  read_from-IsRun (r ∷ reads) before (small, smaller) room =
      let size = length-append before r.chunk in
      let further = λ (fits : length (before ++ r.chunk) ≤ maximum).
        further_read maximum r reads before fits
          (λ run e. rw e (read_from-IsRun reads (before ++ r.chunk) smaller fits)) in
      elim (Bool-cases (is_empty r.chunk)) [
        | inl nothing ↦
            rw nothing (further (omega (arith, size, ap length (is_empty-nil r.chunk nothing))))
        | inr something ↦ elim (Bool-cases (ltb maximum (length (before ++ r.chunk)))) [
          | inl big ↦
              rw (something, big)
                (last_read maximum r reads before response_too_large (omega arith) (ground arith))
          | inr fits ↦ elim (Bool-cases (contains_prompt (before ++ r.chunk))) [
            | inl found ↦
                rw (something, fits, found)
                  (last_read maximum r reads before prompt_found (omega arith)
                    (found, ground arith))
            | inr missing ↦ rw (something, fits, missing) (further (ground arith))
          ]
        ]
      ]

-- Where a Read returns 4096 bytes at most, readUntilPrompt returns the bytes of the first reads
-- joined in their order, and at most 4096 more than the maximum. With the prompt found they end in
-- the prompt and fit the maximum; the response is called too large only where it is; and while the
-- function waits, no read has failed and nothing read is lost.
pub read_until_prompt-IsRun :
    (maximum : ℕ) (reads : List ReadResult)
    → All (λ r. length r.chunk ≤ 4096) reads
    → (n : ℕ) × ((read_until_prompt reads maximum).0 ≡ joined (take n reads))
      × (length (read_until_prompt reads maximum).0 ≤ maximum + 4096)
      × Describes maximum reads
          (read_until_prompt reads maximum).0
          (read_until_prompt reads maximum).1
unfolding read_until_prompt
read_until_prompt-IsRun maximum reads small = read_from-IsRun maximum reads [] small (omega arith)
