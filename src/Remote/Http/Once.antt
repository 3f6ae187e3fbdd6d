-- ===== src/Remote/Http/Once.antt =====
-- Each request is answered at most once, and no answer blocks.
use busylib_go.Prelude.{
  one_if, ℕ, zero, suc, ◌+◌, ◌≤◌, ◌≡◌, refl, sym, true, List, [], ◌∷◌, ◌++◌, Option, none, some,
  arith, ◌==◌, length,
}
use busylib_go.Prelude.Bytes.{Bytes}
use busylib_go.Remote.Http.{
  RoundTripper, HttpResult, HttpError, lookup, delete, pick, keep_first, fail_all,
  new_round_tripper,
}

-- How often a channel waits in the map, and how often a result for it is in hand.
abbrev pub waiting : ℕ → List (Bytes × ℕ) → ℕ
waiting c [] = 0
waiting c ((_, channel) ∷ pending) = one_if (channel == c) + waiting c pending

abbrev pub held : {E : Type 0} → ℕ → List (ℕ × HttpResult E) → ℕ
held c [] = 0
held c ((channel, _) ∷ hand) = one_if (channel == c) + held c hand

pub waiting-delete :
    (c : ℕ) (key : Bytes) (pending : List (Bytes × ℕ))
    → waiting c (delete key pending) ≤ waiting c pending
waiting-delete c key [] = omega arith
waiting-delete c key ((k, channel) ∷ pending) =
    let ih = waiting-delete c key pending in ground (arith, ih)

pub waiting-lookup :
    (c : ℕ) (key : Bytes) (pending : List (Bytes × ℕ)) {channel : ℕ}
    → lookup key pending ≡ some channel
    → one_if (channel == c) + waiting c (delete key pending) ≤ waiting c pending
waiting-lookup c key [] {channel = d} h = ground arith
waiting-lookup c key ((k, channel) ∷ pending) {channel = d} h =
    let ih = waiting-lookup c key pending {channel = d} in
    let less = waiting-delete c key pending in ground (arith, ih, less)

pub held-fail_all :
    {E : Type 0} (c : ℕ) (e : HttpError E) (pending : List (Bytes × ℕ))
    (hand : List (ℕ × HttpResult E))
    → held c (fail_all e pending ++ hand) ≡ waiting c pending + held c hand
held-fail_all c e [] hand = omega arith
held-fail_all c e ((_, channel) ∷ pending) hand =
    let ih = held-fail_all c e pending hand in omega (arith, ih)

held-keep_first :
    {E : Type 0} (c : ℕ) (x : ℕ × HttpResult E) (hand : List (ℕ × HttpResult E))
    (o : Option ((ℕ × HttpResult E) × List (ℕ × HttpResult E))) {channel : ℕ}
    {result : HttpResult E} {others : List (ℕ × HttpResult E)}
    → ((d : ℕ) (r : HttpResult E) (ys : List (ℕ × HttpResult E))
        → o ≡ some ((d, r), ys)
        → held c hand ≡ one_if (d == c) + held c ys)
    → keep_first x o ≡ some ((channel, result), others)
    → held c (x ∷ hand) ≡ one_if (channel == c) + held c others
held-keep_first c x hand none ih h = cc
held-keep_first c (n, r) hand (some ((d, r'), ys)) {channel = channel} {others = others} ih h =
    let same : held c hand ≡ one_if (d == c) + held c ys = ih d r' ys refl in
    let first : d ≡ channel = cc in
    let rest : (n, r) ∷ ys ≡ others = cc in rw (sym first, sym rest) (omega (arith, same))

pub held-pick :
    {E : Type 0} (c i : ℕ) (hand : List (ℕ × HttpResult E)) {channel : ℕ} {result : HttpResult E}
    {others : List (ℕ × HttpResult E)}
    → pick i hand ≡ some ((channel, result), others)
    → held c hand ≡ one_if (channel == c) + held c others
held-pick c zero [] h = cc
held-pick c (suc i) [] h = cc
held-pick c zero ((n, r) ∷ hand) {channel = channel} {others = others} h =
    let first : n ≡ channel = cc in let rest : hand ≡ others = cc in rw (first, rest) refl
held-pick c (suc i) (x ∷ hand) h =
    held-keep_first c x hand (pick i hand)
      (λ d r ys e. held-pick c i hand {channel = d} {result = r} {others = ys} e) h

module _ {E : Type 0} where
  -- What a channel may still get, or holds.
  abbrev pub answers : RoundTripper E → ℕ → ℕ
  answers r c = waiting c r.pending + held c r.in_hand + length (r.results c)

  -- A channel that was made is answered once at most, one that was not made never; after Close nothing
  -- waits.
  pub record Inv (r : RoundTripper E) : Type 0 where
    pub once : (c : ℕ) → answers r c ≤ 1
    pub fresh : (c : ℕ) → r.next ≤ c → answers r c ≡ 0
    pub settled : r.is_closed ≡ true → (r.pending ≡ []) × (r.subscription ≡ none)
    pub called : r.close_called ≡ r.is_closed

  pub new_round_tripper-Inv : Inv (new_round_tripper {E = E})
  new_round_tripper-Inv = record {
    once = λ c. omega arith;
    fresh = λ c h. refl;
    settled = λ h. cc;
    called = refl;
  }

  -- Fewer answers, of the same channels.
  pub less-Inv :
      (r r' : RoundTripper E)
      → ((c : ℕ) → answers r' c ≤ answers r c)
      → r'.next ≡ r.next
      → (r'.is_closed ≡ true → (r'.pending ≡ []) × (r'.subscription ≡ none))
      → r'.close_called ≡ r'.is_closed
      → Inv r
      → Inv r'
  less-Inv r r' less next settled called v = record {
    once = λ c. let a = less c in let b = v.once c in omega (arith, a, b);
    fresh = λ c h. let a = less c in let b = v.fresh c (rw (sym next) h) in omega (arith, a, b);
    settled = settled;
    called = called;
  }
