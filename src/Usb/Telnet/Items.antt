-- ===== src/Usb/Telnet/Items.antt =====
-- The telnet stream that usb/protocol.go's stripIAC reads: text with negotiation between.
use mathlib.Core.WellFounded.{Acc, Acc-prop}
use busylib_go.Prelude.{
  ℕ, ◌≤◌, ◌<◌, ◌≡◌, ◌≢◌, inl, inr, refl, List, [], ◌∷◌, ◌++◌, append_assoc, ◌==◌, if◌then◌else◌,
  arith, Shorter, drop-Shorter, shorter_acc, All, Bool-cases, ==_iff, ◌∙◌, ap, sym,
}
use busylib_go.Prelude.Bytes.{Bytes}
use busylib_go.Usb.Telnet.{skip_subnegotiation, strip_from, strip_iac}

-- `text` is a byte of text, `option` one of WILL, WONT, DO and DONT with its option, `block` a
-- subnegotiation with its payload, and `command` any other command.
pub data Item : Type 0 where
  text command : ℕ → Item
  option : ℕ → ℕ → Item
  block : Bytes → Item

-- A text byte 255 is doubled on the wire.
abbrev pub wire_item : Item → Bytes
wire_item (text b) = if b == 255 then 255 ∷ 255 ∷ [] else b ∷ []
wire_item (command c) = 255 ∷ c ∷ []
wire_item (option c o) = 255 ∷ c ∷ o ∷ []
wire_item (block payload) = 255 ∷ 250 ∷ payload ++ 255 ∷ 240 ∷ []

abbrev pub wire : List Item → Bytes
wire [] = []
wire (item ∷ items) = wire_item item ++ wire items

abbrev pub texts : List Item → Bytes
texts [] = []
texts (text b ∷ items) = b ∷ texts items
texts (_ ∷ items) = texts items

-- A payload does not hold the end of a block.
abbrev pub HasNoEnd : Bytes → Type 0
HasNoEnd [] = Unit
HasNoEnd (b ∷ []) = Unit
HasNoEnd (b ∷ c ∷ rest) = ((b ≡ 255) × (c ≡ 240) → ⊥) × HasNoEnd (c ∷ rest)

abbrev pub IsItem : Item → Type 0
IsItem (text b) = Unit
IsItem (command c) = c < 250
IsItem (option c o) = (251 ≤ c) × (c ≤ 254)
IsItem (block payload) = HasNoEnd payload

skip-block :
    (payload rest : Bytes)
    → HasNoEnd payload
    → skip_subnegotiation (payload ++ 255 ∷ 240 ∷ rest) ≡ rest
unfolding skip_subnegotiation
skip-block [] rest h = refl
skip-block (b ∷ []) rest h = ground arith
skip-block (b ∷ c ∷ payload) rest h = ground (arith, skip-block (c ∷ payload) rest)

-- The result does not depend on the proof by which the loop recurs.
strip_from-strip_iac : (bs : Bytes) (w : Acc Shorter bs) → strip_from bs w ≡ strip_iac bs
unfolding strip_iac
strip_from-strip_iac bs w = ap (strip_from bs) (Acc-prop w (shorter_acc bs))

-- One round of the loop, by what stands at the head of the data.
strip_from-text :
    (b : ℕ) (rest : Bytes) (w : Acc Shorter (b ∷ rest))
    → b ≢ 255
    → strip_from (b ∷ rest) w ≡ b ∷ strip_iac rest
unfolding strip_from strip_iac
strip_from-text b [] w h = ground arith
strip_from-text b (c ∷ []) (Acc.intro _ shorter) h =
    ground (arith, strip_from-strip_iac (c ∷ []) (shorter _ (drop-Shorter 0 b (c ∷ []))))
strip_from-text b (c ∷ d ∷ rest) (Acc.intro _ shorter) h =
    ground
      (arith, strip_from-strip_iac (c ∷ d ∷ rest) (shorter _ (drop-Shorter 0 b (c ∷ d ∷ rest))))

strip_from-escape :
    (rest : Bytes) (w : Acc Shorter (255 ∷ 255 ∷ rest))
    → strip_from (255 ∷ 255 ∷ rest) w ≡ 255 ∷ strip_iac rest
unfolding strip_from strip_iac
strip_from-escape [] (Acc.intro _ shorter) = refl
strip_from-escape (d ∷ rest) (Acc.intro _ shorter) =
    ap (λ (t : Bytes). 255 ∷ t) (strip_from-strip_iac (d ∷ rest) _)

strip_from-option :
    (c o : ℕ) (rest : Bytes) (w : Acc Shorter (255 ∷ c ∷ o ∷ rest))
    → 251 ≤ c
    → c ≤ 254
    → strip_from (255 ∷ c ∷ o ∷ rest) w ≡ strip_iac rest
unfolding strip_from strip_iac
strip_from-option c o rest (Acc.intro _ shorter) lo hi =
    ground (arith, strip_from-strip_iac rest (shorter _ (drop-Shorter 2 255 (c ∷ o ∷ rest))))

strip_from-command :
    (c : ℕ) (rest : Bytes) (w : Acc Shorter (255 ∷ c ∷ rest))
    → c < 250
    → strip_from (255 ∷ c ∷ rest) w ≡ strip_iac rest
unfolding strip_from strip_iac
strip_from-command c [] (Acc.intro _ shorter) h = ground arith
strip_from-command c (d ∷ rest) (Acc.intro _ shorter) h =
    ground (arith, strip_from-strip_iac (d ∷ rest) (shorter _ (drop-Shorter 1 255 (c ∷ d ∷ rest))))

strip_from-block :
    (d : ℕ) (rest : Bytes) (w : Acc Shorter (255 ∷ 250 ∷ d ∷ rest))
    → strip_from (255 ∷ 250 ∷ d ∷ rest) w ≡ strip_iac (skip_subnegotiation (d ∷ rest))
unfolding strip_from strip_iac
strip_from-block d rest (Acc.intro _ shorter) =
    strip_from-strip_iac (skip_subnegotiation (d ∷ rest)) _

opened : (bs : Bytes) → strip_iac bs ≡ strip_from bs (shorter_acc bs)
opened bs = sym (strip_from-strip_iac bs (shorter_acc bs))

module _ (rest : Bytes) where
  strip_iac-block :
      (payload : Bytes)
      → HasNoEnd payload
      → strip_iac (255 ∷ 250 ∷ payload ++ 255 ∷ 240 ∷ rest) ≡ strip_iac rest
  strip_iac-block [] h =
      opened _ ∙ strip_from-block 255 (240 ∷ rest) _ ∙ ap strip_iac (skip-block [] rest h)
  strip_iac-block (d ∷ payload) h =
      opened _
      ∙ strip_from-block d (payload ++ 255 ∷ 240 ∷ rest) _
      ∙ ap strip_iac (skip-block (d ∷ payload) rest h)

  strip_iac-item :
      (item : Item)
      → IsItem item
      → strip_iac (wire_item item ++ rest) ≡ texts (item ∷ []) ++ strip_iac rest
  strip_iac-item (text b) h = elim (Bool-cases (b == 255)) [
    | inl e ↦ let same = (==_iff b 255).0 e in rw same (opened _ ∙ strip_from-escape rest _)
    | inr n ↦ rw n (opened _ ∙ strip_from-text b rest _ (ground arith))
  ]
  strip_iac-item (command c) h = opened _ ∙ strip_from-command c rest _ h
  strip_iac-item (option c o) h = opened _ ∙ strip_from-option c o rest _ h.0 h.1
  strip_iac-item (block payload) h =
      rw (append_assoc payload (255 ∷ 240 ∷ []) rest) (strip_iac-block payload h)

strip_iac-nil : strip_iac [] ≡ []
unfolding strip_iac
strip_iac-nil = refl

texts-cons :
    (item : Item) (items : List Item) → texts (item ∷ []) ++ texts items ≡ texts (item ∷ items)
texts-cons (text b) items = refl
texts-cons (command c) items = refl
texts-cons (option c o) items = refl
texts-cons (block payload) items = refl

-- Of a stream of text, options, commands and closed subnegotiations, stripIAC keeps exactly the text
-- bytes, in their order, with a doubled 255 taken as one.
pub strip_iac-wire : (items : List Item) → All IsItem items → strip_iac (wire items) ≡ texts items
strip_iac-wire [] h = strip_iac-nil
strip_iac-wire (item ∷ items) (h, hs) =
    strip_iac-item (wire items) item h ∙ rw (strip_iac-wire items hs) (texts-cons item items)

skip-unclosed :
    (payload : Bytes) (last : ℕ)
    → HasNoEnd (payload ++ last ∷ [])
    → skip_subnegotiation (payload ++ last ∷ []) ≡ last ∷ []
unfolding skip_subnegotiation
skip-unclosed [] last h = refl
skip-unclosed (b ∷ []) last h = ground arith
skip-unclosed (b ∷ c ∷ payload) last h = ground (arith, skip-unclosed (c ∷ payload) last)

-- A subnegotiation that the data do not close is dropped but for its last byte, which stays in the
-- text where it is not 255.
pub strip_iac-unclosed :
    (payload : Bytes) (last : ℕ)
    → HasNoEnd (payload ++ last ∷ [])
    → last ≢ 255
    → strip_iac (255 ∷ 250 ∷ payload ++ last ∷ []) ≡ last ∷ []
strip_iac-unclosed [] last h n =
    opened _
    ∙ strip_from-block last [] _
    ∙ ap strip_iac (skip-unclosed [] last h)
    ∙ (opened _ ∙ strip_from-text last [] _ n)
    ∙ ap (λ (t : Bytes). last ∷ t) strip_iac-nil
strip_iac-unclosed (d ∷ payload) last h n =
    opened _
    ∙ strip_from-block d (payload ++ last ∷ []) _
    ∙ ap strip_iac (skip-unclosed (d ∷ payload) last h)
    ∙ (opened _ ∙ strip_from-text last [] _ n)
    ∙ ap (λ (t : Bytes). last ∷ t) strip_iac-nil

-- Data with no byte 255 are text.
pub strip_iac-plain : (bs : Bytes) → All (λ b. b ≢ 255) bs → strip_iac bs ≡ bs
strip_iac-plain [] h = strip_iac-nil
strip_iac-plain (b ∷ bs) (h, hs) =
    opened (b ∷ bs) ∙ strip_from-text b bs _ h ∙ ap (λ t. b ∷ t) (strip_iac-plain bs hs)
