-- ===== src/Timestamp/Digits.antt =====
-- Decimal numbers of a fixed width, as `Sprintf("%0*d")` writes and the key's pattern reads them.
use native.Mathlib.Nat.{pow-suc}
use proxy_core.Base.{
  ℕ, zero, suc, ◌+◌, ◌-◌, ◌*◌, ◌/◌, ◌%◌, ◌^◌, ◌<◌, ◌≤◌, ◌≡◌, refl, Bool, true, false, List, [], ◌∷◌,
  ◌++◌, Option, none, some, if◌then◌else◌, ltb, leb, ◌&&◌, arith, length, ap, sym, ◌∙◌,
  Option-cases, inl, inr,
}

-- The `w` digits of a number below 10^w.
unfoldable pub pad : ℕ → ℕ → List ℕ
pad zero n = []
pad (suc w) n = (b'0' + n / 10 ^ w) ∷ pad w (n % 10 ^ w)

abbrev pub is_digit : ℕ → Bool
is_digit c = leb b'0' c && leb c b'9'

-- Reads exactly `w` digits: their value, and the rest of the text.
unfoldable pub digits : ℕ → List ℕ → Option (ℕ × List ℕ)
digits zero cs = some (0, cs)
digits (suc w) [] = none
digits (suc w) (c ∷ cs) = elim (digits w cs) [
  | none ↦ none
  | some (n, rest) ↦ if is_digit c then some ((c - b'0') * 10 ^ w + n, rest) else none
]

-- The order of texts under `COLLATE BINARY`.
unfoldable pub bytes_lt : List ℕ → List ℕ → Bool
bytes_lt [] [] = false
bytes_lt [] (d ∷ ds) = true
bytes_lt (c ∷ cs) [] = false
bytes_lt (c ∷ cs) (d ∷ ds) = if ltb c d then true else if ltb d c then false else bytes_lt cs ds

pow_pos : (w : ℕ) → 0 < 10 ^ w
pow_pos zero = omega arith
pow_pos (suc w) = omega (arith, pow-suc 10 w, pow_pos w)

-- The first digit of a number below 10^(w + 1).
div_bound : (w n : ℕ) → n < 10 ^ suc w → n / 10 ^ w < 10
div_bound w n h = grind (arith, pow_pos w, pow-suc 10 w)

mod_bound : (w n : ℕ) → n % 10 ^ w < 10 ^ w
mod_bound w n = grind (arith, pow_pos w)

div_mod : (w n : ℕ) → n / 10 ^ w * 10 ^ w + n % 10 ^ w ≡ n
div_mod w n = omega arith

pub length-pad : (w n : ℕ) → length (pad w n) ≡ w
unfolding pad
length-pad zero n = refl
length-pad (suc w) n = ap suc (length-pad w (n % 10 ^ w))

-- The digits that are written are read back.
pub digits-pad :
    (w n : ℕ) (rest : List ℕ) → n < 10 ^ w → digits w (pad w n ++ rest) ≡ some (n, rest)
unfolding digits pad
digits-pad zero n rest h = ground arith
digits-pad (suc w) n rest h =
    rw (digits-pad w (n % 10 ^ w) rest (mod_bound w n))
      (ground (arith, div_bound w n h, div_mod w n))

-- A number read from one digit more: that digit, and the number read behind it.
record Reads (w c : ℕ) (cs : List ℕ) (n : ℕ) (rest : List ℕ) : Type 0 where
  digit : ℕ
  tail : ℕ
  small : digit < 10
  head_eq : b'0' + digit ≡ c
  tail_eq : digits w cs ≡ some (tail, rest)
  sum : digit * 10 ^ w + tail ≡ n

digits-Reads :
    (w c : ℕ) (cs : List ℕ) {n : ℕ} {rest : List ℕ}
    → digits (suc w) (c ∷ cs) ≡ some (n, rest)
    → Reads w c cs n rest
unfolding digits
digits-Reads w c cs h = elim (Option-cases (digits w cs)) [
  | inl e ↦ cc (rw (e, digits) at h)
  | inr ((k, more), e) ↦ record {
    digit = c - b'0';
    tail = k;
    small = ground arith;
    head_eq = ground arith;
    tail_eq = ground arith;
    sum = ground arith;
  }
]

pub digits-lt :
    (w : ℕ) (cs : List ℕ) {n : ℕ} {rest : List ℕ} → digits w cs ≡ some (n, rest) → n < 10 ^ w
unfolding digits
digits-lt zero cs h = ground arith
digits-lt (suc w) [] h = cc
digits-lt (suc w) (c ∷ cs) h =
    let r = digits-Reads w c cs h in
    let k_lt = digits-lt w cs r.tail_eq in
    let step : r.digit * 10 ^ w ≤ 9 * 10 ^ w = grind (arith, r.small) in
    omega (arith, r.sum, k_lt, step, pow-suc 10 w)

div_eq : (p d k : ℕ) → k < p → (d * p + k) / p ≡ d
div_eq p d k h = grind arith

mod_eq : (p d k : ℕ) → k < p → (d * p + k) % p ≡ k
mod_eq p d k h = grind (arith, div_eq p d k h)

-- Only the digits of a number are read as that number.
pub pad-digits :
    (w : ℕ) (cs : List ℕ) {n : ℕ} {rest : List ℕ}
    → digits w cs ≡ some (n, rest)
    → pad w n ++ rest ≡ cs
unfolding digits pad
pad-digits zero cs h = ground arith
pad-digits (suc w) [] h = cc
pad-digits (suc w) (c ∷ cs) {n} {rest} h =
    let r = digits-Reads w c cs h in
    let k_lt = digits-lt w cs r.tail_eq in
    let ih = pad-digits w cs r.tail_eq in
    let q : n / 10 ^ w ≡ r.digit = ap (λ (t : ℕ). t / 10 ^ w) (sym r.sum) ∙ div_eq _ _ _ k_lt in
    let m : n % 10 ^ w ≡ r.tail = ap (λ (t : ℕ). t % 10 ^ w) (sym r.sum) ∙ mod_eq _ _ _ k_lt in
    rw (q, m, r.head_eq) (ap (λ (t : List ℕ). c ∷ t) ih)

div_lt→lt : (w m n : ℕ) → m / 10 ^ w < n / 10 ^ w → m < n
div_lt→lt w m n h = grind (arith, pow_pos w)

-- Two numbers of one width compare as their texts do.
pub bytes_lt-pad :
    (w m n : ℕ) (xs ys : List ℕ)
    → m < 10 ^ w
    → n < 10 ^ w
    → bytes_lt (pad w m ++ xs) (pad w n ++ ys)
      ≡ (if ltb m n then true else if ltb n m then false else bytes_lt xs ys)
unfolding bytes_lt pad
bytes_lt-pad zero m n xs ys h k = ground arith
bytes_lt-pad (suc w) m n xs ys h k =
    rw (bytes_lt-pad w (m % 10 ^ w) (n % 10 ^ w) xs ys (mod_bound w m) (mod_bound w n))
      (ground (arith, div_lt→lt w m n, div_lt→lt w n m, div_mod w m, div_mod w n))

-- The order of texts is a strict total one.
pub bytes_lt_irrefl : (xs : List ℕ) → bytes_lt xs xs ≡ false
unfolding bytes_lt
bytes_lt_irrefl [] = refl
bytes_lt_irrefl (x ∷ xs) = ground (arith, bytes_lt_irrefl xs)

pub bytes_lt_asymm : (xs ys : List ℕ) → bytes_lt xs ys ≡ true → bytes_lt ys xs ≡ false
unfolding bytes_lt
bytes_lt_asymm [] [] h = refl
bytes_lt_asymm [] (y ∷ ys) h = refl
bytes_lt_asymm (x ∷ xs) [] h = cc
bytes_lt_asymm (x ∷ xs) (y ∷ ys) h = ground (arith, bytes_lt_asymm xs ys)

pub bytes_lt_cotrans :
    (xs ys zs : List ℕ) → bytes_lt xs ys ≡ true → bytes_lt zs ys ≡ false → bytes_lt xs zs ≡ true
unfolding bytes_lt
bytes_lt_cotrans [] [] zs h k = cc
bytes_lt_cotrans [] (y ∷ ys) [] h k = cc
bytes_lt_cotrans [] (y ∷ ys) (z ∷ zs) h k = refl
bytes_lt_cotrans (x ∷ xs) [] zs h k = cc
bytes_lt_cotrans (x ∷ xs) (y ∷ ys) [] h k = cc
bytes_lt_cotrans (x ∷ xs) (y ∷ ys) (z ∷ zs) h k = ground (arith, bytes_lt_cotrans xs ys zs)
